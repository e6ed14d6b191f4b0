-- ===== src/Affinity/Guard.antt =====
-- `_guard` of django_rls_tenants/tenants/affinity.py, the execute wrapper around every statement.
-- `execute` is the rest of the wrappers and the statement itself; `connect` is Django's `connect()`
-- for a connection that is closed. `connection.close()` drops the driver's connection.
pub mod Isolation
pub mod OwnTransaction
mod Committed
mod Tests
use django_rls_tenants.Base.Core.{
  ℕ, ◌==◌, Bool, true, false, not, ◌&&◌, ◌||◌, Option, none, some, List, [], ◌∷◌, map,
  if◌then◌else◌,
}
use django_rls_tenants.Base.Text.{Text, codes, text_eq, text_in, upper}
use django_rls_tenants.Gucs.{ContextGucs, is_active}
use django_rls_tenants.Affinity.Server.{begin, commit, rollback, Command, idle, in_error}
use django_rls_tenants.Affinity.Sql.{
  Sql, Statement, parse, followed, controls_the_transaction, refused_in_a_transaction, identifier,
  savepoint_name,
}
use django_rls_tenants.Affinity.Tracker.{
  SessionGucs, forget, suspect_session, end_transaction, add_savepoint, follow_savepoint_end,
}
use django_rls_tenants.Affinity.Connection.{
  Config, Driver, World, Ran, returned, raised, then_do, Error, base_exception,
}
use django_rls_tenants.Affinity.Writes.{observe, is_guarded, write_gucs, apply_if_stale}

module _ (d : Driver) where
  -- What is done to the tracker, if there is one.
  abbrev on_tracker : (SessionGucs → SessionGucs) → World d → World d
  on_tracker f w = elim w.tracker [ none ↦ w | some t ↦ record w { tracker = some (f t) } ]

  unfoldable observe_now : World d → World d
  observe_now w = elim w.tracker [
    | none ↦ w
    | some t ↦ record w { tracker = some ((observe d w t).1) }
  ]

  -- `_identifier(words[1]).upper()` if there is a second word.
  unfoldable argument_of : List Text → Text
  argument_of (_ ∷ w ∷ _) = upper (identifier w)
  argument_of _ = []

  -- How the tracker follows the end of a transaction, before the status is read.
  unfoldable followed_end : Text → Text → Bool → ℕ → SessionGucs → SessionGucs
  followed_end command argument rolls_back_to status_before tracker =
      if (text_eq command (codes "ROLLBACK") || text_eq command (codes "ABORT"))
        && not rolls_back_to
      then end_transaction (some false) tracker
      else if text_eq command (codes "COMMIT") || text_eq command (codes "END")
      then end_transaction (some (not (status_before == in_error))) tracker
      else if text_eq command (codes "PREPARE") && text_eq argument (codes "TRANSACTION")
      then forget (end_transaction (some false) tracker)
      else tracker

  unfoldable set_savepoint : Option Text → SessionGucs → SessionGucs
  set_savepoint none tracker = forget tracker
  set_savepoint (some name) tracker = add_savepoint name tracker

  -- How it follows savepoints, after the status is read.
  unfoldable followed_savepoints : Statement → Bool → SessionGucs → SessionGucs
  followed_savepoints st rolls_back_to tracker =
      if text_eq st.command (codes "SAVEPOINT")
      then set_savepoint (savepoint_name st.words (codes "SAVEPOINT")) tracker
      else if text_eq st.command (codes "RELEASE") || rolls_back_to
      then follow_savepoint_end
          (savepoint_name st.words (if rolls_back_to then codes "TO" else codes "RELEASE"))
          rolls_back_to tracker
      else tracker

  -- `_follow`
  unfoldable follow : Config → Statement → ℕ → World d → World d
  follow conf st status_before w =
      let argument = argument_of st.words in
      let names = upper conf.guc_is_admin ∷ upper conf.guc_current_tenant ∷ [] in
      let rolls_back_to =
        text_eq st.command (codes "ROLLBACK") && text_in (codes "TO") (map upper st.words) in
      if text_eq st.command (codes "RESET") || text_eq st.command (codes "DISCARD")
      then (if text_eq argument (codes "ALL")
            || (text_eq st.command (codes "RESET") && text_in argument names)
          then on_tracker forget w
          else w)
      else if text_eq argument (codes "PREPARED")
      then w
      else on_tracker (followed_savepoints st rolls_back_to) (
          observe_now (on_tracker (followed_end st.command argument rolls_back_to status_before) w))

  -- `_needs_own_transaction`
  unfoldable needs_own_transaction :
      Config → Option ContextGucs → World d → ℕ → Option Statement → Bool
  needs_own_transaction conf context_gucs w status statement =
      status == idle
      && conf.use_local_set
      && w.autocommit
      && is_active context_gucs
      && is_guarded d conf w
      && not (refused_in_a_transaction statement)

  -- `_send_transaction_control`, past the guard
  unfoldable send_control : Command → World d → Ran d (Unit {0})
  send_control c w = let (o, s) = d.send w.autocommit c w.session in (o, record w { session = s })

  -- The end of `_abandon_own_transaction`: whether the transaction is over.
  unfoldable leave_abandoned : Bool → World d → World d
  leave_abandoned true w = on_tracker (end_transaction (some false)) w
  leave_abandoned false w = record (on_tracker forget w) { raw = none }

  -- What the `try` of `_abandon_own_transaction` did: an `Exception` is logged, and then the
  -- transaction counts as open.
  unfoldable abandoned : Ran d (Unit {0}) → Ran d (Unit {0})
  abandoned (returned u, w) = (returned tt, leave_abandoned (d.status w.session == idle) w)
  abandoned (raised base_exception, w) = (raised base_exception, leave_abandoned false w)
  abandoned (raised e, w) = (returned tt, leave_abandoned false w)

  -- `_abandon_own_transaction`
  unfoldable abandon_own_transaction : World d → Ran d (Unit {0})
  abandon_own_transaction w =
      abandoned (if d.status w.session == idle then (returned tt, w) else send_control rollback w)

  -- The `except BaseException` of `_run_in_own_transaction`, and its end.
  unfoldable end_own_transaction : {R : Type 0} → Ran d R → Ran d R
  end_own_transaction (returned r, w) = (returned r, on_tracker (end_transaction (some true)) w)
  end_own_transaction (raised e, w) = then_do (abandon_own_transaction w) (λ _ w'. (raised e, w'))

  module _ (connect : World d → Ran d (Unit {0})) where
    -- BEGIN and the context's values.
    unfoldable open_own_transaction : Config → Option ContextGucs → World d → Ran d (Unit {0})
    open_own_transaction conf context_gucs w =
        then_do (send_control begin w)
          (λ _ w'. write_gucs d connect conf context_gucs true (observe_now w'))

    unfoldable run_in_own_transaction :
        {R : Type 0} → Config → Option ContextGucs → (World d → Ran d R) → World d → Ran d R
    run_in_own_transaction conf context_gucs execute w = end_own_transaction (
        then_do (open_own_transaction conf context_gucs w) (λ _ w₁.
          then_do (execute w₁)
            (λ r w₂. then_do (send_control commit w₂) (λ _ w₃. (returned r, w₃)))))

    -- What the guard does before the statement: the status, and whether the statement gets a
    -- transaction of its own.
    unfoldable prepare :
        Config → Option ContextGucs → Option Statement → SessionGucs → World d → Ran d (ℕ × Bool)
    prepare conf context_gucs statement tracker w =
        if not (w.depth == 0) || controls_the_transaction statement
        then (let (status, seen) = observe d w tracker in
            (returned (status, false), record w { tracker = some seen }))
        else then_do (apply_if_stale d connect conf context_gucs tracker w) (λ status w'.
          (returned (status, needs_own_transaction conf context_gucs w' status statement), w'))

    -- `statement is None or statement.command in _FOLLOWED`
    unfoldable may_change : Option Statement → Bool
    may_change none = true
    may_change (some st) = text_in st.command followed

    -- What the guard makes of a statement that has run.
    unfoldable follow_statement : Config → Option Statement → ℕ → World d → World d
    follow_statement conf none status w = on_tracker forget w
    follow_statement conf (some st) status w =
        if st.compound
        then on_tracker forget w
        else if text_in st.command followed
        then follow conf st status w
        else w

    -- `elif tracker.wrote_local and tracker.in_transaction and not _writes.depth`
    unfoldable suspects : Bool → World d → SessionGucs → Bool
    suspects own w t = own || (t.wrote_local && t.in_transaction && w.depth == 0)

    unfoldable suspect_after : Bool → World d → World d
    suspect_after own w = on_tracker (λ t. if suspects own w t then suspect_session true t else t) w

    unfoldable conclude : {R : Type 0} → Config → Option Statement → ℕ → Bool → Ran d R → Ran d R
    conclude conf statement status own (returned r, w) =
        (returned r, suspect_after own (follow_statement conf statement status w))
    conclude conf statement status own (raised e, w) =
        (raised e, if may_change statement then on_tracker forget w else w)

    -- The statement, prepared, and what follows it.
    unfoldable run_prepared :
        {R : Type 0}
        → Config
        → Option ContextGucs
        → (World d → Ran d R)
        → Option Statement
        → ℕ × Bool
        → World d
        → Ran d R
    run_prepared conf context_gucs execute statement (status, own) w =
        conclude conf statement status own
          (if own then run_in_own_transaction conf context_gucs execute w else execute w)

    unfoldable guarded :
        {R : Type 0}
        → Config
        → Option ContextGucs
        → (World d → Ran d R)
        → Option Statement
        → Option SessionGucs
        → World d
        → Ran d R
    guarded conf context_gucs execute statement none w = execute w
    guarded conf context_gucs execute statement (some tracker) w =
        then_do (prepare conf context_gucs statement tracker w)
          (run_prepared conf context_gucs execute statement)

    -- `_guard`
    unfoldable guard :
        {R : Type 0} → Config → Option ContextGucs → (World d → Ran d R) → Sql → World d → Ran d R
    guard conf context_gucs execute sql w =
        guarded conf context_gucs execute (parse sql) w.tracker w
