-- ===== src/Affinity/Ends/Followed.antt =====
-- The hooked commit and rollback of a transaction that the guard follows.
use mathlib.Core.Path.{subst}
use django_rls_tenants.Base.Core.{
  ℕ, ◌==◌, ◌≡◌, ◌∙◌, ap, sym, refl, ◌⊎◌, inl, inr, Bool, true, false, Option, some, arith,
  Bool-cases,
}
use django_rls_tenants.Affinity.Server.{Server, View, Command, idle, commit, rollback}
use django_rls_tenants.Affinity.Tracker.{SessionGucs, follow_end}
use django_rls_tenants.Affinity.Tracker.Sound.{IsSound}
use django_rls_tenants.Affinity.Tracker.Session.{committed-IsSound, rolled_back-IsSound}
use django_rls_tenants.Affinity.Connection.{
  Driver, DriverLaws, World, Ran, Outcome, returned, raised, Error, database_error,
}
use django_rls_tenants.Affinity.Writes.Followed.{IsFollowed, opened, opened-eq}
use django_rls_tenants.Affinity.Ends.{transaction_end, ended, follow_on}

-- `connection.connection.commit()` or `.rollback()`, under Django's `_commit` and `_rollback`.
abbrev pub driver_end : (d : Driver) → Command → World d → Ran d (Unit {0})
driver_end d c w = let (o, s) = d.send w.autocommit c w.session in (o, record w { session = s })

-- The driver's command for an end that commits, or not.
abbrev pub end_command : Bool → Command
end_command true = commit
end_command false = rollback

raw-follow_end :
    (before after : ℕ) (c : Option Bool) (t : SessionGucs)
    → (follow_end before after c t).raw ≡ t.raw
unfolding follow_end
raw-follow_end before after c t = ground arith

module _ (d : Driver) (S : Server) (laws : DriverLaws d S) (w : World d) (r : ℕ) (t : SessionGucs)
    (f : IsFollowed d w r t) (in_block : (d.view w.session).in_block ≡ true)
    (committed : Bool) where
  hooked :
      transaction_end d (driver_end d (end_command committed)) committed (opened d w r t)
      ≡ ended d
          (d.status w.session)
          committed
          (driver_end d (end_command committed) (opened d w r t))
  unfolding transaction_end
  hooked = rw f.attached (ground arith)

  session_settled :
      (s' : d.Session)
      → d.send w.autocommit (end_command committed) w.session ≡ (returned tt, s')
      → (d.view s').in_block ≡ false
  session_settled s' e =
      go committed
        (laws.send_law w.autocommit (end_command committed) w.session s' e (inr in_block))
    where
      go :
          (b : Bool)
          → S.Runs (end_command b) (d.view w.session) (d.view s')
          → (d.view s').in_block ≡ false
      go true runs = elim (Bool-cases (d.view w.session).failed) [
        | inl x ↦ ap (λ (v : View). v.in_block) (S.commit_failed_law _ _ runs x)
        | inr x ↦ ap (λ (v : View). v.in_block) (S.commit_law _ _ runs x)
      ]
      go false runs = ap (λ (v : View). v.in_block) (S.rollback_law _ _ runs)

  end-IsSound :
      (s' : d.Session)
      → d.send w.autocommit (end_command committed) w.session ≡ (returned tt, s')
      → IsSound (follow_end (d.status w.session) idle (some committed) t) (d.view s')
  end-IsSound s' e =
      go committed
        (laws.send_law w.autocommit (end_command committed) w.session s' e (inr in_block))
    where
      go :
          (b : Bool)
          → S.Runs (end_command b) (d.view w.session) (d.view s')
          → IsSound (follow_end (d.status w.session) idle (some b) t) (d.view s')
      go true runs =
          committed-IsSound S t (d.view w.session) (d.view s') f.sound (d.status w.session) runs
            in_block (laws.status_law w.session)
      go false runs =
          rolled_back-IsSound S t (d.view w.session) (d.view s') f.sound (d.status w.session) runs
            in_block (laws.status_law w.session)

  idle_after : (s : d.Session) → (d.view s).in_block ≡ false → d.status s ≡ idle
  idle_after s n = elim (Bool-cases (d.status s == idle)) [
    | inl e ↦ ground arith
    | inr e ↦ absurd (ground (arith, n, (laws.status_law s).1 (ground arith)))
  ]

  -- What a hooked end comes to.
  abbrev pub IsEndOf : Ran d (Unit {0}) → Type 0
  IsEndOf p =
      ((x : Error) × (p.0 ≡ raised x))
      ⊎ ((w' : World d) × (t' : SessionGucs) × (p ≡ (returned tt, w'))
          × IsFollowed d w' r t'
          × ((d.view w'.session).in_block ≡ false))

  ended-IsFollowed :
      ((x : Error) × ((ended d
            (d.status w.session)
            committed
            (driver_end d (end_command committed) (opened d w r t))).0
          ≡ raised x))
      ⊎ ((w' : World d) × (t' : SessionGucs) × (ended d
              (d.status w.session)
              committed
              (driver_end d (end_command committed) (opened d w r t))
            ≡ (returned tt, w'))
          × IsFollowed d w' r t'
          × ((d.view w'.session).in_block ≡ false))
  unfolding ended follow_on
  ended-IsFollowed = go (d.send w.autocommit (end_command committed) w.session) refl
    where
      failed :
          (x : Error) (w' : World d)
          → (y : Error) × ((ended d (d.status w.session) committed (raised x, w')).0 ≡ raised y)
      failed database_error w' = (database_error, refl)
      failed x w' = (x, refl)

      go :
          (o : Outcome (Unit {0}) × d.Session)
          → d.send w.autocommit (end_command committed) w.session ≡ o
          → ((x : Error) × ((ended d
                  (d.status w.session)
                  committed
                  (driver_end d (end_command committed) (opened d w r t))).0
                ≡ raised x))
            ⊎ ((w' : World d) × (t' : SessionGucs) × (ended d
                    (d.status w.session)
                    committed
                    (driver_end d (end_command committed) (opened d w r t))
                  ≡ (returned tt, w'))
                × IsFollowed d w' r t'
                × ((d.view w'.session).in_block ≡ false))
      go (raised x, s') e =
          let (y, is_raised) = failed x (record (opened d w r t) { session = s' }) in
          inl (y, rw e is_raised)
      go (returned u, s') e =
          let out = session_settled s' e in
          let t' = follow_end (d.status w.session) (d.status s') (some committed) t in
          inr (
            record (opened d w r t) { session = s'; tracker = some t' },
            t',
            rw e refl,
            record {
              is_open = refl;
              tracked = refl;
              attached =
                  raw-follow_end (d.status w.session) (d.status s') (some committed) t ∙ f.attached;
              sound = rw (idle_after s' out) (end-IsSound s' e);
            },
            out,
          )

  -- The hooked commit or rollback of a transaction on a connection that the guard follows raises,
  -- or leaves the connection followed, with a tracker that is correct about a session outside any
  -- transaction.
  pub transaction_end-IsFollowed :
      ((x : Error) × ((transaction_end d (driver_end d (end_command committed)) committed w).0
          ≡ raised x))
      ⊎ ((w' : World d) × (t' : SessionGucs) × (transaction_end d
              (driver_end d (end_command committed))
              committed
              w
            ≡ (returned tt, w'))
          × IsFollowed d w' r t'
          × ((d.view w'.session).in_block ≡ false))
  transaction_end-IsFollowed =
      subst (λ w'. IsEndOf (transaction_end d (driver_end d (end_command committed)) committed w'))
        (opened-eq d w r t f) (subst IsEndOf (sym hooked) ended-IsFollowed)
