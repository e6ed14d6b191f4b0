-- ===== src/Affinity/Guard/OwnTransaction.antt =====
-- `_run_in_own_transaction` (django_rls_tenants/tenants/affinity.py), up to the statement.
use mathlib.Core.Path.{subst}
use django_rls_tenants.Base.Core.{
  ℕ, ◌≡◌, ◌≢◌, refl, ◌∙◌, ap, ◌⊎◌, inl, inr, Bool, true, false, Option, none, some, arith,
}
use django_rls_tenants.Gucs.{ContextGucs, is_active, written_for}
use django_rls_tenants.Affinity.Server.{Server, View, begun, idle, begin, commit, set_config}
use django_rls_tenants.Affinity.Sql.{
  Sql, Statement, parse, controls_the_transaction, refused_in_a_transaction,
}
use django_rls_tenants.Affinity.Tracker.{SessionGucs, sync_transaction}
use django_rls_tenants.Affinity.Tracker.Keeps.{sync_transaction-begin}
use django_rls_tenants.Affinity.Connection.{
  Config, Driver, DriverLaws, World, Ran, returned, raised, then_do, Error, Outcome,
}
use django_rls_tenants.Affinity.Writes.{
  observe, is_guarded, will_run_in_transaction, write_gucs, applies, apply_if_stale, apply_observed,
}
use django_rls_tenants.Affinity.Writes.Followed.{
  IsFollowed, CanWrite, observed-followed, observed-attached, opened, opened-eq, accepted, refused,
  written, written-IsFollowed,
}
use django_rls_tenants.Affinity.Guard.{
  prepare, guard, guarded, conclude, needs_own_transaction, run_prepared, run_in_own_transaction,
  open_own_transaction, end_own_transaction, abandon_own_transaction, send_control, observe_now,
}

-- What is left once the transaction is open: the statement, COMMIT, and the end.
abbrev pub in_own_transaction : {R : Type 0} (d : Driver) → (World d → Ran d R) → World d → Ran d R
in_own_transaction d execute w =
    end_own_transaction d
      (then_do (execute w) (λ r w₂. then_do (send_control d commit w₂) (λ _ w₃. (returned r, w₃))))

-- A failure before the statement is raised, after the rollback.
pub end_own_transaction-raises :
    (d : Driver) (R : Type 0) (p : Ran d (Unit {0})) (x : Error)
    → p.0 ≡ raised x
    → (y : Error) × ((k : Unit {0} → World d → Ran d R)
        → (end_own_transaction d (then_do p k)).0 ≡ raised y)
unfolding end_own_transaction
end_own_transaction-raises d R (returned u, w) x e = cc
end_own_transaction-raises d R (raised z, w) x e = go (abandon_own_transaction d w)
  where
    go :
        (q : Ran d (Unit {0}))
        → (y : Error) × ((k : Unit {0} → World d → Ran d R)
            → (then_do {B = R} q (λ _ w'. (raised z, w'))).0 ≡ raised y)
    go (returned u, w') = (z, λ k. refl)
    go (raised y, w') = (y, λ k. refl)

-- What a statement raises, the guard raises.
concludes :
    (d : Driver) (connect : World d → Ran d (Unit {0})) (conf : Config) (R : Type 0)
    (statement : Option Statement) (status : ℕ) (own : Bool) (p : Ran d R) (y : Error)
    → p.0 ≡ raised y
    → (conclude d connect conf statement status own p).0 ≡ raised y
unfolding conclude
concludes d connect conf R statement status own (returned u, w) y e = cc
concludes d connect conf R statement status own (raised z, w) y e = e

module _ (d : Driver) (S : Server) (laws : DriverLaws d S) (connect : World d → Ran d (Unit {0}))
    (conf : Config) (c : Option ContextGucs) where
  -- A context is active, and the connection of a configured alias is in autocommit, outside any
  -- transaction, with `USE_LOCAL_SET`.
  pub record IsAlone (w : World d) : Type 0 where
    pub active : is_active c ≡ true
    pub local_set : conf.use_local_set ≡ true
    pub configured : is_guarded d conf w ≡ true
    pub autocommit : w.autocommit ≡ true
    pub outside : d.status w.session ≡ idle

  -- The transaction of `w'` has begun on the session of `w`, which it holds for its end, and has
  -- the context's values; the guard is right about it.
  pub record IsBegun (w : World d) (r : ℕ) (w' : World d) (t' : SessionGucs) : Type 0 where
    pub followed : IsFollowed d w' r t'
    pub session : d.view w'.session ≡ record (begun (d.view w.session).now) { now = written_for c }

  module _ (w : World d) (r : ℕ) (t : SessionGucs) (f : IsFollowed d w r t) (a : IsAlone w) where
    abbrev seen : World d
    seen = record w { tracker = some t }

    observed_now : observe d w t ≡ (d.status w.session, t)
    unfolding observe
    observed_now =
        subst (λ w'. observe d w' t ≡ (d.status w'.session, t)) (opened-eq d w r t f)
          (rw (observed-followed d S laws r (opened d w r t) t f.attached f.sound) refl)

    writes_nothing : applies d connect conf c w (d.status w.session) t ≡ none
    unfolding applies will_run_in_transaction
    writes_nothing = ground (arith, a.active, a.local_set, a.autocommit, a.outside)

    not_applied : apply_if_stale d connect conf c t w ≡ (returned (d.status w.session), seen)
    unfolding apply_if_stale apply_observed
    not_applied = rw observed_now (rw (writes_nothing, apply_observed) refl)

    needs :
        (statement : Option Statement)
        → refused_in_a_transaction statement ≡ false
        → needs_own_transaction d conf c seen (d.status w.session) statement ≡ true
    unfolding needs_own_transaction is_guarded
    needs statement n =
        ground (arith, a.active, a.local_set, a.configured, a.autocommit, a.outside, n)

    prepares :
        (statement : Option Statement)
        → w.depth ≡ 0
        → controls_the_transaction statement ≡ false
        → prepare d connect conf c statement t w
          ≡ then_do (apply_if_stale d connect conf c t w) (λ status w'.
            (returned (status, needs_own_transaction d conf c w' status statement), w'))
    unfolding prepare
    prepares statement z n = rw (n, z) refl

    prepared :
        (statement : Option Statement)
        → w.depth ≡ 0
        → controls_the_transaction statement ≡ false
        → refused_in_a_transaction statement ≡ false
        → prepare d connect conf c statement t w ≡ (returned (d.status w.session, true), seen)
    prepared statement z n m =
        prepares statement z n
        ∙ ap
            (λ p. then_do p (λ status w'.
              (returned (status, needs_own_transaction d conf c w' status statement), w')))
            not_applied
        ∙ ap (λ b. (returned (d.status w.session, b), seen)) (needs statement m)

    guard-own :
        {R : Type 0} (execute : World d → Ran d R) (sql : Sql)
        → w.depth ≡ 0
        → controls_the_transaction (parse sql) ≡ false
        → refused_in_a_transaction (parse sql) ≡ false
        → guard d connect conf c execute sql w
          ≡ conclude d connect conf
              (parse sql)
              (d.status w.session)
              true
              (run_in_own_transaction d connect conf c execute seen)
    unfolding guard guarded run_prepared
    guard-own execute sql z n m =
        ap (λ o. guarded d connect conf c execute (parse sql) o w) f.tracked
        ∙ ap (λ p. then_do p (run_prepared d connect conf c execute (parse sql)))
            (prepared (parse sql) z n m)

    -- BEGIN has been accepted.
    module _ (s₁ : d.Session) (sent : d.send w.autocommit begin w.session ≡ (returned tt, s₁)) where
      begun_view : d.view s₁ ≡ begun (d.view w.session).now
      begun_view =
          S.begin_law (d.view w.session) (d.view s₁)
            (laws.send_law w.autocommit begin w.session s₁ sent (inl a.autocommit))
            ((laws.status_law w.session).0 a.outside)

      begun_status : d.status s₁ ≢ idle
      begun_status e =
          let b : (d.view s₁).in_block ≡ false = (laws.status_law s₁).0 e in
          absurd (ground (arith, ap (λ (v : View). v.in_block) begun_view, b))

      abbrev tracker₁ : SessionGucs
      tracker₁ = sync_transaction (d.status s₁) t

      abbrev world₁ : World d
      world₁ = record w { session = s₁; tracker = some tracker₁ }

      raw-tracker₁ : tracker₁.raw ≡ some r
      unfolding sync_transaction
      raw-tracker₁ = ground (arith, f.attached)

      begun-IsFollowed : IsFollowed d world₁ r tracker₁
      begun-IsFollowed = record {
        is_open = f.is_open;
        tracked = refl;
        attached = raw-tracker₁;
        sound = rw begun_view (
            sync_transaction-begin t (d.view w.session) f.sound (d.status s₁) begun_status
              ((laws.status_law w.session).0 a.outside));
      }

      opens : open_own_transaction d connect conf c seen ≡ write_gucs d connect conf c true world₁
      unfolding open_own_transaction send_control observe_now observe
      opens = rw sent (
          rw f.is_open (
            rw
              (observed-attached d r (record w { raw = some r; session = s₁; tracker = some t }) t
                f.attached)
              refl))

      -- The write of the values, refused or accepted.
      refused_write :
          (s₂ : d.Session) (x : Error)
          → d.send w.autocommit (set_config (written_for c) true) s₁ ≡ (raised x, s₂)
          → (open_own_transaction d connect conf c seen).0 ≡ raised x
      refused_write s₂ x e =
          ap (λ p. p.0) opens
          ∙ subst (λ w'. (write_gucs d connect conf c true w').0 ≡ raised x)
              (opened-eq d world₁ r tracker₁ begun-IsFollowed)
              (refused d S laws connect conf c true world₁ r tracker₁ s₂ x in_block e)
        where
          in_block : CanWrite d true (opened d world₁ r tracker₁)
          in_block = inl (ap (λ (v : View). v.in_block) begun_view)

      accepted_write :
          (s₂ : d.Session)
          → d.send w.autocommit (set_config (written_for c) true) s₁ ≡ (returned tt, s₂)
          → (t' : SessionGucs) × (w' : World d) × (open_own_transaction d connect conf c seen
              ≡ (returned tt, w'))
            × IsBegun w r w' t'
      unfolding is_guarded
      accepted_write s₂ e =
          let b : (d.view s₁).in_block ≡ true = ap (λ (v : View). v.in_block) begun_view in
          let t₂ = written d S laws connect conf c true s₂ tracker₁ in
          (
            t₂,
            record (opened d world₁ r tracker₁) { session = s₂; tracker = some t₂ },
            opens
                ∙ subst
                    (λ w'. write_gucs d connect conf c true w' ≡ (
                      returned tt,
                      record (opened d world₁ r tracker₁) { session = s₂; tracker = some t₂ },
                    ))
                    (opened-eq d world₁ r tracker₁ begun-IsFollowed)
                    (accepted d S laws connect conf c true world₁ r tracker₁ s₂ raw-tracker₁
                      begun-IsFollowed.sound a.configured (inl b) e),
            record {
              followed =
                  written-IsFollowed d S laws connect conf c true world₁ r tracker₁ s₂ raw-tracker₁
                    begun-IsFollowed.sound (inl b) e;
              session =
                  S.set_local_law (d.view s₁) (d.view s₂) (written_for c)
                    (laws.send_law w.autocommit (set_config (written_for c) true) s₁ s₂ e
                      (inl a.autocommit))
                    b
                  ∙ ap (λ (v : View). record v { now = written_for c }) begun_view;
            },
          )

    -- The transaction opens, or the failure does not depend on the statement.
    own_transaction-opens :
        ((x : Error) × ((open_own_transaction d connect conf c seen).0 ≡ raised x))
        ⊎ ((t' : SessionGucs) × (w' : World d) × (open_own_transaction d connect conf c seen
              ≡ (returned tt, w'))
            × IsBegun w r w' t')
    unfolding open_own_transaction send_control
    own_transaction-opens = go (d.send w.autocommit begin w.session) refl
      where
        Result : Type 0
        Result =
            ((x : Error) × ((open_own_transaction d connect conf c seen).0 ≡ raised x))
            ⊎ ((t' : SessionGucs) × (w' : World d) × (open_own_transaction d connect conf c seen
                  ≡ (returned tt, w'))
                × IsBegun w r w' t')

        write :
            (s₁ : d.Session)
            → d.send w.autocommit begin w.session ≡ (returned tt, s₁)
            → (o : Outcome (Unit {0}) × d.Session)
            → d.send w.autocommit (set_config (written_for c) true) s₁ ≡ o
            → Result
        write s₁ sent (raised x, s₂) e = inl (x, refused_write s₁ sent s₂ x e)
        write s₁ sent (returned u, s₂) e = inr (accepted_write s₁ sent s₂ e)

        go : (o : Outcome (Unit {0}) × d.Session) → d.send w.autocommit begin w.session ≡ o → Result
        go (raised x, s₁) e = inl (x, rw e refl)
        go (returned u, s₁) e =
            write s₁ e (d.send w.autocommit (set_config (written_for c) true) s₁) refl

    -- On a connection that the guard follows, of a configured alias, in autocommit outside any
    -- transaction, with USE_LOCAL_SET and an active context, a statement that is no transaction
    -- control and that is not refused in a transaction, outside the library's own writes, either is
    -- never run, because the guard raises first whatever the statement would do, or runs in a
    -- transaction of its own, followed by COMMIT if it returns: the session is then in a
    -- transaction that holds the context's values and keeps the session's own values for its end,
    -- with the tracker correct about it.
    pub guard-runs_in_own_transaction :
        {R : Type 0} (sql : Sql)
        → w.depth ≡ 0
        → controls_the_transaction (parse sql) ≡ false
        → refused_in_a_transaction (parse sql) ≡ false
        → ((y : Error) × ((execute : World d → Ran d R)
              → (guard d connect conf c execute sql w).0 ≡ raised y))
          ⊎ ((t' : SessionGucs) × (w' : World d) × ((execute : World d → Ran d R)
                → guard d connect conf c execute sql w
                  ≡ conclude d connect conf
                      (parse sql)
                      (d.status w.session)
                      true
                      (in_own_transaction d execute w'))
              × IsBegun w r w' t')
    unfolding run_in_own_transaction conclude
    guard-runs_in_own_transaction {R} sql z n m = elim own_transaction-opens [
      | inl (x, e) ↦
          let (y, all) =
            end_own_transaction-raises d R (open_own_transaction d connect conf c seen) x e in
          inl (
            y,
            λ execute.
                ap (λ p. p.0) (guard-own execute sql z n m)
                ∙ concludes d connect conf R (parse sql) (d.status w.session) true _ y (
                    all (λ _ w₁.
                      then_do (execute w₁)
                        (λ r' w₂. then_do (send_control d commit w₂) (λ _ w₃. (returned r', w₃))))),
          )
      | inr (t', w', e, b) ↦ inr (
        t',
        w',
        (λ execute.
            guard-own execute sql z n m
            ∙ ap
                (λ p. conclude d connect conf (parse sql) (d.status w.session) true (
                  end_own_transaction d (
                    then_do p (λ _ w₁.
                      then_do (execute w₁) (λ r' w₂.
                        then_do (send_control d commit w₂) (λ _ w₃. (returned r', w₃)))))))
                e),
        b,
      )
    ]
