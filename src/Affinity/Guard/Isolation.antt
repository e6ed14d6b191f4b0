-- ===== src/Affinity/Guard/Isolation.antt =====
-- `_guard` (django_rls_tenants/tenants/affinity.py): the session that a statement runs on.
use mathlib.Core.Path.{subst}
use django_rls_tenants.Base.Core.{
  ℕ, ◌==◌, ◌≡◌, ◌≢◌, refl, ◌∙◌, ap, ◌⊎◌, inl, inr, Bool-cases, Bool, true, false, ◌&&◌, Option,
  none, some, arith,
}
use django_rls_tenants.Gucs.{ContextGucs, is_active, tracked_of, tracked_eq, tracked_eq_iff}
use django_rls_tenants.Affinity.Server.{Server, idle, in_error, connection_bad}
use django_rls_tenants.Affinity.Sql.{Sql, Statement, parse, controls_the_transaction}
use django_rls_tenants.Affinity.Tracker.{SessionGucs}
use django_rls_tenants.Affinity.Connection.{
  Config, Driver, DriverLaws, World, Ran, returned, raised, then_do, Error,
}
use django_rls_tenants.Affinity.Writes.{
  observe, is_guarded, will_run_in_transaction, write_gucs, applies, apply_if_stale, apply_observed,
}
use django_rls_tenants.Affinity.Writes.Sound.{now_of_Agrees}
use django_rls_tenants.Affinity.Writes.Followed.{
  IsFollowed, IsApplied, CanWrite, write_gucs-IsApplied, observed-followed, opened, opened-eq,
}
use django_rls_tenants.Affinity.Guard.{
  prepare, guard, guarded, conclude, needs_own_transaction, run_prepared,
}

module _ (d : Driver) (S : Server) (laws : DriverLaws d S) (connect : World d → Ran d (Unit {0}))
    (conf : Config) where
  -- The guard acts: the alias is configured, and a statement can run on the connection.
  pub record CanAct (w : World d) : Type 0 where
    pub configured : is_guarded d conf w ≡ true
    pub not_failed : d.status w.session ≢ in_error
    pub not_bad : d.status w.session ≢ connection_bad
    pub no_rollback : w.needs_rollback ≡ false

  observe-followed :
      (w : World d) (r : ℕ) (t : SessionGucs)
      → IsFollowed d w r t
      → observe d (opened d w r t) t ≡ (d.status w.session, t)
  unfolding observe
  observe-followed w r t f = rw (observed-followed d S laws r (opened d w r t) t f.attached f.sound)

  -- Whether the context's values would be written transaction-locally.
  abbrev pub local_mode : Option ContextGucs → Bool
  local_mode c = is_active c && conf.use_local_set

  -- The values can be written: for the session, or in a transaction.
  abbrev pub CanApply : Option ContextGucs → World d → Type 0
  CanApply c w = (local_mode c ≡ false) ⊎ (will_run_in_transaction d w (d.status w.session) ≡ true)

  -- What `_apply_if_stale` does on such a connection.
  module _ (c : Option ContextGucs) (w : World d) (r : ℕ) (t : SessionGucs) (f : IsFollowed d w r t)
      (a : CanAct w) (m : CanApply c w) where
    can_write : CanWrite d (local_mode c) w
    unfolding will_run_in_transaction
    can_write = elim m [
      | inl s ↦ inr (inl s)
      | inr r ↦ elim (Bool-cases (d.status w.session == idle)) [
        | inl i ↦ inr (inr (ground arith))
        | inr n ↦ inl ((laws.status_law w.session).1 (ground arith))
      ]
    ]

    decides :
        tracked_eq (tracked_of c) t.values ≡ false
        → applies d connect conf c w (d.status w.session) t ≡ some (local_mode c)
    unfolding applies
    decides e = ground (arith, a.configured, a.not_failed, a.not_bad, a.no_rollback)

    keeps :
        tracked_eq (tracked_of c) t.values ≡ true
        → applies d connect conf c w (d.status w.session) t ≡ none
    unfolding applies
    keeps e = rw e

    observed_now : observe d w t ≡ (d.status w.session, t)
    observed_now =
        subst (λ w'. observe d w' t ≡ (d.status w'.session, t)) (opened-eq d w r t f)
          (observe-followed w r t f)

    abbrev seen : World d
    seen = record w { tracker = some t }

    seen-IsFollowed : IsFollowed d seen r t
    seen-IsFollowed = record {
      is_open = f.is_open;
      tracked = refl;
      attached = f.attached;
      sound = f.sound;
    }

    kept :
        tracked_eq (tracked_of c) t.values ≡ true
        → apply_if_stale d connect conf c t w ≡ (returned (d.status w.session), seen)
    unfolding apply_if_stale apply_observed
    kept e = rw observed_now (rw (keeps e, apply_observed) refl)

    stale :
        tracked_eq (tracked_of c) t.values ≡ false
        → apply_if_stale d connect conf c t w
          ≡ then_do
              (write_gucs d connect conf c (local_mode c) seen)
              (λ _ w'. (returned (d.status w.session), w'))
    unfolding apply_if_stale apply_observed
    stale e = rw observed_now (rw (decides e, apply_observed) refl)

    -- It raises, or leaves the session with the context's values.
    pub apply_if_stale-IsApplied :
        ((x : Error) × ((apply_if_stale d connect conf c t w).0 ≡ raised x))
        ⊎ ((w' : World d) × (t' : SessionGucs) × (apply_if_stale d connect conf c t w
              ≡ (returned (d.status w.session), w'))
            × IsApplied d S laws connect conf c w r w' t')
    unfolding is_guarded
    apply_if_stale-IsApplied = elim (Bool-cases (tracked_eq (tracked_of c) t.values)) [
      | inl e ↦ inr (
        seen,
        t,
        kept e,
        record {
          followed = seen-IsFollowed;
          now =
              now_of_Agrees c (d.view w.session).now
                (rw ((tracked_eq_iff (tracked_of c) t.values).0 e) f.sound.agrees);
          same_depth = refl;
          same_autocommit = refl;
          same_alias = refl;
        },
      )
      | inr e ↦
          elim (write_gucs-IsApplied d S laws connect conf c (local_mode c) seen r t seen-IsFollowed
            a.configured can_write) [
              | inl (x, u) ↦ inl (x, rw (stale e) (rw u refl))
              | inr (w', t', u, done) ↦ inr (
                w',
                t',
                rw (stale e) (rw u refl),
                record {
                  followed = done.followed;
                  now = done.now;
                  same_depth = done.same_depth;
                  same_autocommit = done.same_autocommit;
                  same_alias = done.same_alias;
                },
              )
            ]
    ]

    no_own_transaction :
        (w' : World d) (statement : Option Statement)
        → w'.autocommit ≡ w.autocommit
        → needs_own_transaction d conf c w' (d.status w.session) statement ≡ false
    unfolding needs_own_transaction will_run_in_transaction
    no_own_transaction w' statement e = ground (arith, m)

    prepares :
        (statement : Option Statement)
        → w.depth ≡ 0
        → controls_the_transaction statement ≡ false
        → prepare d connect conf c statement t w
          ≡ then_do (apply_if_stale d connect conf c t w) (λ status w'.
            (returned (status, needs_own_transaction d conf c w' status statement), w'))
    unfolding prepare
    prepares statement z n = rw (n, z) refl

    -- What is left of the guard for such a statement.
    guard-then :
        {R : Type 0} (execute : World d → Ran d R) (sql : Sql)
        → w.depth ≡ 0
        → controls_the_transaction (parse sql) ≡ false
        → guard d connect conf c execute sql w
          ≡ then_do
              (then_do (apply_if_stale d connect conf c t w) (λ status w'.
                (returned (status, needs_own_transaction d conf c w' status (parse sql)), w')))
              (run_prepared d connect conf c execute (parse sql))
    unfolding guard guarded
    guard-then execute sql z n =
        ap (λ o. guarded d connect conf c execute (parse sql) o w) f.tracked
        ∙ ap (λ p. then_do p (run_prepared d connect conf c execute (parse sql)))
            (prepares (parse sql) z n)

    runs :
        {R : Type 0} (execute : World d → Ran d R) (statement : Option Statement) (w' : World d)
        → apply_if_stale d connect conf c t w ≡ (returned (d.status w.session), w')
        → w'.autocommit ≡ w.autocommit
        → then_do
            (then_do (apply_if_stale d connect conf c t w) (λ status w'.
              (returned (status, needs_own_transaction d conf c w' status statement), w')))
            (run_prepared d connect conf c execute statement)
          ≡ conclude d connect conf statement (d.status w.session) false (execute w')
    unfolding run_prepared
    runs execute statement w' e same = rw e (rw (no_own_transaction w' statement same) refl)

    -- On a connection that the guard follows (open, with an attached and correct tracker) and that
    -- can take a write (configured alias, session neither failed nor bad, no rollback pending),
    -- where the context's values can be written (no context, or session mode, or a transaction), a
    -- statement that is no transaction control, outside the library's own writes, either is never
    -- run, because the guard raises first whatever the statement would do, or runs on a session
    -- that holds the values of the active context (both GUCs empty without one), with the tracker
    -- correct about it.
    pub guard-isolates :
        {R : Type 0} (sql : Sql)
        → w.depth ≡ 0
        → controls_the_transaction (parse sql) ≡ false
        → ((x : Error) × ((execute : World d → Ran d R)
              → (guard d connect conf c execute sql w).0 ≡ raised x))
          ⊎ ((w' : World d) × (t' : SessionGucs) × ((execute : World d → Ran d R)
                → guard d connect conf c execute sql w
                  ≡ conclude d connect conf (parse sql) (d.status w.session) false (execute w'))
              × IsApplied d S laws connect conf c w r w' t')
    guard-isolates {R} sql z n = elim apply_if_stale-IsApplied [
      | inl (x, e) ↦ inl (x, λ execute. rw (guard-then execute sql z n) (rw e refl))
      | inr (w', t', e, done) ↦ inr (
        w',
        t',
        (λ execute.
            guard-then execute sql z n ∙ runs execute (parse sql) w' e done.same_autocommit),
        done,
      )
    ]
