-- ===== src/Affinity/Writes.antt =====
-- Recording the library's own writes, and applying the active context
-- (django_rls_tenants/tenants/affinity.py). `connect` is Django's `connect()` with its
-- `connection_created` handlers, for a connection that is closed.
pub mod Followed
pub mod Sound
use django_rls_tenants.Base.Core.{
  ℕ, suc, ◌==◌, Bool, true, false, not, ◌&&◌, ◌||◌, Option, none, some, List, [], ◌∷◌,
  if◌then◌else◌,
}
use mathlib.Core.Option
use django_rls_tenants.Base.Text.{text_in}
use django_rls_tenants.Gucs.{
  ContextGucs, is_active, Tracked, unknown, tracked_of, written_for, tracked_eq,
}
use django_rls_tenants.Affinity.Server.{set_config, idle, in_error, connection_bad}
use django_rls_tenants.Affinity.Tracker.{
  SessionGucs, fresh, attach, sync_transaction, set_values, forget,
}
use django_rls_tenants.Affinity.Connection.{
  Config, Driver, World, Ran, returned, raised, then_do, Error, runtime_error, Outcome,
}

-- `raw is tracker.raw`, `None` being no connection.
abbrev pub same_raw : ℕ → Option ℕ → Bool
same_raw r none = false
same_raw r (some q) = r == q

module _ (d : Driver) where
  -- The tracker that `_observe` leaves on an open connection.
  unfoldable pub observed : ℕ → World d → SessionGucs → SessionGucs
  observed r w tracker =
      sync_transaction (d.status w.session)
        (if same_raw r tracker.raw then tracker else attach (some r) unknown tracker)

  -- `_observe`: the status, and the connection with its tracker brought up to date.
  unfoldable pub observe : World d → SessionGucs → ℕ × SessionGucs
  observe w tracker = elim w.raw [
    | none ↦ (connection_bad, tracker)
    | some r ↦ (d.status w.session, observed r w tracker)
  ]

  -- `_is_guarded`
  unfoldable pub is_guarded : Config → World d → Bool
  is_guarded conf w = text_in w.alias conf.databases

  -- `_will_run_in_transaction`
  unfoldable pub will_run_in_transaction : World d → ℕ → Bool
  will_run_in_transaction w status = not (status == idle) || not w.autocommit

  -- `install` with `UNKNOWN`, on a connection without a tracker.
  unfoldable pub install_unknown : World d → World d
  install_unknown w = record w { tracker = some (attach w.raw unknown fresh) }

  -- `_record`
  unfoldable pub record_values : Config → Tracked → Bool → World d → World d
  record_values conf values local w = elim w.raw [
    | none ↦ w
    | some r ↦ elim w.tracker [
      | none ↦ install_unknown w
      | some t ↦
          let seen = (observe w t).1 in
          let v = if is_guarded conf w then values else unknown in
          record w { tracker = some (set_values v local seen) }
    ]
  ]

  -- `_forget`
  unfoldable pub forget_values : World d → World d
  forget_values w = elim w.tracker [ none ↦ w | some t ↦ record w { tracker = some (forget t) } ]

  -- The exit of `writing`: what the block did, with the depth put back.
  unfoldable pub after_writing : Config → Tracked → Bool → ℕ → Ran d (Unit {0}) → Ran d (Unit {0})
  after_writing conf values local depth (returned u, w) =
      (returned tt, record (record_values conf values local w) { depth = depth })
  after_writing conf values local depth (raised e, w) =
      (raised e, record (forget_values w) { depth = depth })

  -- `writing`, around a block.
  unfoldable pub writing :
      Config → Tracked → Bool → (World d → Ran d (Unit {0})) → World d → Ran d (Unit {0})
  writing conf values local block w =
      after_writing conf values local w.depth (block (record w { depth = suc w.depth }))

  -- `cursor.execute` of a write: the guard, kept out of the way by the depth, observes the session.
  unfoldable pub execute_write : ContextGucs → Bool → World d → Ran d (Unit {0})
  execute_write g local w =
      let (o, s) = d.send w.autocommit (set_config g local) w.session in
      (o, record w { session = s; tracker = Option.map (λ t. (observe w t).1) w.tracker })

  module _ (connect : World d → Ran d (Unit {0})) where
    -- `connection.ensure_connection()`
    unfoldable pub ensure_connection : World d → Ran d (Unit {0})
    ensure_connection w = elim w.raw [ none ↦ connect w | some r ↦ (returned tt, w) ]

    -- `cursor()` opens the connection, and the write follows.
    unfoldable pub write_on : ContextGucs → Bool → World d → Ran d (Unit {0})
    write_on g local w = then_do (ensure_connection w) (λ _. execute_write g local)

    -- The check of `write_gucs` for a transaction-local write.
    unfoldable pub check_local : Bool → World d → Ran d (Unit {0})
    check_local is_local w =
        if is_local
        then then_do (ensure_connection w) (λ _ w'.
          if will_run_in_transaction w' (d.status w'.session)
          then (returned tt, w')
          else (raised runtime_error, w'))
        else (returned tt, w)

    unfoldable pub write_gucs : Config → Option ContextGucs → Bool → World d → Ran d (Unit {0})
    write_gucs conf values is_local w =
        then_do (check_local is_local w)
          (λ _. writing conf (tracked_of values) is_local (write_on (written_for values) is_local))

    -- What `_apply_if_stale` decides: whether it writes, and if so whether transaction-locally.
    unfoldable pub applies : Config → Option ContextGucs → World d → ℕ → SessionGucs → Option Bool
    applies conf context_gucs w status seen =
        let is_local = is_active context_gucs && conf.use_local_set in
        if tracked_eq (tracked_of context_gucs) seen.values
        then none
        else if status == in_error || status == connection_bad || w.needs_rollback
        then none
        else if not (is_guarded conf w)
        then none
        else if is_local && not (will_run_in_transaction w status)
        then none
        else some is_local

    -- The rest of `_apply_if_stale`, from what `_observe` read on.
    unfoldable pub apply_observed :
        Config → Option ContextGucs → World d → ℕ × SessionGucs → Ran d ℕ
    apply_observed conf context_gucs w (status, seen) =
        let w' = record w { tracker = some seen } in
        elim (applies conf context_gucs w status seen) [
          | none ↦ (returned status, w')
          | some is_local ↦
              then_do (write_gucs conf context_gucs is_local w') (λ _ w''. (returned status, w''))
        ]

    unfoldable pub apply_if_stale : Config → Option ContextGucs → SessionGucs → World d → Ran d ℕ
    apply_if_stale conf context_gucs tracker w =
        apply_observed conf context_gucs w (observe w tracker)
