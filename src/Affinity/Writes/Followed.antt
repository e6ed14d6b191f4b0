-- ===== src/Affinity/Writes/Followed.antt =====
-- `write_gucs` (django_rls_tenants/tenants/affinity.py) on a connection that the guard follows.
use mathlib.Core.Path.{subst}
use django_rls_tenants.Base.Core.{
  ℕ, suc, ◌≡◌, refl, sym, ◌∙◌, ◌⊎◌, inl, inr, Bool, true, false, Option, some, arith,
}
use django_rls_tenants.Gucs.{ContextGucs, Tracked, tracked_of, written_for}
use django_rls_tenants.Affinity.Server.{Server, set_config}
use django_rls_tenants.Affinity.Tracker.{SessionGucs, sync_transaction, set_values}
use django_rls_tenants.Affinity.Tracker.Sound.{IsSound}
use django_rls_tenants.Affinity.Connection.{
  Config, Driver, DriverLaws, World, Ran, returned, raised, Error, Outcome,
}
use django_rls_tenants.Affinity.Writes.{
  observed, observe, is_guarded, record_values, will_run_in_transaction, check_local, write_gucs,
  writing, write_on, ensure_connection, execute_write, after_writing,
}
use django_rls_tenants.Affinity.Writes.Sound.{
  sent-IsSound, sync_transaction-in_step, Agrees-written, now_of_Agrees,
}

-- The guard follows the connection: it is open, its tracker is attached to it, and right about it.
pub record IsFollowed (d : Driver) (w : World d) (r : ℕ) (t : SessionGucs) : Type 0 where
  pub is_open : w.raw ≡ some r
  pub tracked : w.tracker ≡ some t
  pub attached : t.raw ≡ some r
  pub sound : IsSound t (d.view w.session)

-- Where a write can be local to a transaction, or need not be.
abbrev pub CanWrite : (d : Driver) → Bool → World d → Type 0
CanWrite d local w =
    ((d.view w.session).in_block ≡ true) ⊎ ((local ≡ false) ⊎ (w.autocommit ≡ false))

raw-sync_transaction : (status : ℕ) (t : SessionGucs) → (sync_transaction status t).raw ≡ t.raw
unfolding sync_transaction
raw-sync_transaction status t = ground arith

raw-set_values :
    (tv : Tracked) (local : Bool) (t : SessionGucs) → (set_values tv local t).raw ≡ t.raw
unfolding set_values
raw-set_values tv local t = refl

module _ (d : Driver) where
  pub observed-attached :
      (r : ℕ) (w : World d) (t : SessionGucs)
      → t.raw ≡ some r
      → observed d r w t ≡ sync_transaction (d.status w.session) t
  unfolding observed
  observed-attached r w t e = rw e (ground arith)

  -- The connection as it is known to be.
  abbrev pub opened : World d → ℕ → SessionGucs → World d
  opened w r t = record w { raw = some r; tracker = some t }

  pub opened-eq : (w : World d) (r : ℕ) (t : SessionGucs) → IsFollowed d w r t → opened w r t ≡ w
  opened-eq w r t f = λ i. record w { raw = sym f.is_open i; tracker = sym f.tracked i }

module _ (d : Driver) (S : Server) (laws : DriverLaws d S) where
  pub observed-followed :
      (r : ℕ) (w : World d) (t : SessionGucs)
      → t.raw ≡ some r
      → IsSound t (d.view w.session)
      → observed d r w t ≡ t
  observed-followed r w t e h =
      observed-attached d r w t e
      ∙ sync_transaction-in_step t (d.view w.session) (d.status w.session) h.in_step
          (laws.status_law w.session)

  module _ (connect : World d → Ran d (Unit {0})) (conf : Config) (c : Option ContextGucs) where
    -- The tracker after an accepted write.
    abbrev pub written : Bool → d.Session → SessionGucs → SessionGucs
    written local s' t = set_values (tracked_of c) local (sync_transaction (d.status s') t)

    check_local-passes :
        (local : Bool) (w : World d) (r : ℕ) (t : SessionGucs)
        → CanWrite d local (opened d w r t)
        → check_local d connect local (opened d w r t) ≡ (returned tt, opened d w r t)
    unfolding check_local ensure_connection will_run_in_transaction
    check_local-passes false w r t b = refl
    check_local-passes true w r t b = elim b [
      | inl i ↦ ground (arith, (laws.status_law w.session).0)
      | inr (inl l) ↦ absurd (ground arith)
      | inr (inr a) ↦ ground arith
    ]

    pub accepted :
        (local : Bool) (w : World d) (r : ℕ) (t : SessionGucs) (s' : d.Session)
        → t.raw ≡ some r
        → IsSound t (d.view w.session)
        → is_guarded d conf w ≡ true
        → CanWrite d local (opened d w r t)
        → d.send w.autocommit (set_config (written_for c) local) w.session ≡ (returned tt, s')
        → write_gucs d connect conf c local (opened d w r t) ≡ (
          returned tt,
          record (opened d w r t) { session = s'; tracker = some (written local s' t) },
        )
    unfolding write_gucs writing write_on ensure_connection execute_write observe after_writing
        record_values is_guarded
    accepted local w r t s' e h g b sent = rw (check_local-passes local w r t b) (
        rw sent (
          rw (observed-followed r (record (opened d w r t) { depth = suc w.depth }) t e h) (
            rw
              (observed-attached d r (record (opened d w r t) { session = s'; depth = suc w.depth })
                t e)
              (rw g refl))))

    pub refused :
        (local : Bool) (w : World d) (r : ℕ) (t : SessionGucs) (s' : d.Session) (x : Error)
        → CanWrite d local (opened d w r t)
        → d.send w.autocommit (set_config (written_for c) local) w.session ≡ (raised x, s')
        → (write_gucs d connect conf c local (opened d w r t)).0 ≡ raised x
    unfolding write_gucs writing write_on ensure_connection execute_write observe after_writing
    refused local w r t s' x b sent = rw (check_local-passes local w r t b) (rw sent refl)

    pub written-IsFollowed :
        (local : Bool) (w : World d) (r : ℕ) (t : SessionGucs) (s' : d.Session)
        → t.raw ≡ some r
        → IsSound t (d.view w.session)
        → CanWrite d local w
        → d.send w.autocommit (set_config (written_for c) local) w.session ≡ (returned tt, s')
        → IsFollowed d
            (record (opened d w r t) { session = s'; tracker = some (written local s' t) })
            r
            (written local s' t)
    written-IsFollowed local w r t s' e h b sent = record {
      is_open = refl;
      tracked = refl;
      attached = raw-set_values _ local _ ∙ raw-sync_transaction (d.status s') t ∙ e;
      sound =
          sent-IsSound d S laws t w.session s' (tracked_of c) (written_for c) local w.autocommit h
            (Agrees-written c) sent b;
    }

    -- What a write that did not raise leaves.
    pub record IsApplied (w : World d) (r : ℕ) (w' : World d) (t' : SessionGucs) : Type 0 where
      pub followed : IsFollowed d w' r t'
      pub now : (d.view w'.session).now ≡ written_for c
      pub same_depth : w'.depth ≡ w.depth
      pub same_autocommit : w'.autocommit ≡ w.autocommit
      pub same_alias : w'.alias ≡ w.alias

    -- On a followed connection of a configured alias, where the write is not transaction-local or
    -- can be, write_gucs raises, or it leaves the session with the written values (empty ones
    -- without a context), the tracker correct and attached, and the depth, the autocommit mode and
    -- the alias as they were.
    pub write_gucs-IsApplied :
        (local : Bool) (w : World d) (r : ℕ) (t : SessionGucs)
        → IsFollowed d w r t
        → is_guarded d conf w ≡ true
        → CanWrite d local w
        → ((x : Error) × ((write_gucs d connect conf c local w).0 ≡ raised x))
          ⊎ ((w' : World d) × (t' : SessionGucs) × (write_gucs d connect conf c local w
                ≡ (returned tt, w'))
              × IsApplied w r w' t')
    unfolding set_values
    write_gucs-IsApplied local w r t f g b =
        go (d.send w.autocommit (set_config (written_for c) local) w.session) refl
      where
        at_w : opened d w r t ≡ w
        at_w = opened-eq d w r t f

        go :
            (o : Outcome (Unit {0}) × d.Session)
            → d.send w.autocommit (set_config (written_for c) local) w.session ≡ o
            → ((x : Error) × ((write_gucs d connect conf c local w).0 ≡ raised x))
              ⊎ ((w' : World d) × (t' : SessionGucs) × (write_gucs d connect conf c local w
                    ≡ (returned tt, w'))
                  × IsApplied w r w' t')
        go (raised x, s') sent = inl (
          x,
          subst (λ w'. (write_gucs d connect conf c local w').0 ≡ raised x) at_w
              (refused local w r t s' x b sent),
        )
        go (returned u, s') sent = inr (
          record (opened d w r t) { session = s'; tracker = some (written local s' t) },
          written local s' t,
          subst
              (λ w'. write_gucs d connect conf c local w' ≡ (
                returned tt,
                record (opened d w r t) { session = s'; tracker = some (written local s' t) },
              ))
              at_w (accepted local w r t s' f.attached f.sound g b sent),
          record {
            followed = written-IsFollowed local w r t s' f.attached f.sound b sent;
            now =
                now_of_Agrees c _
                  (sent-IsSound d S laws t w.session s' (tracked_of c) (written_for c) local
                    w.autocommit f.sound (Agrees-written c) sent b).agrees;
            same_depth = refl;
            same_autocommit = refl;
            same_alias = refl;
          },
        )
