-- ===== src/Context/Databases.antt =====
-- Writing a request's values on every alias (django_rls_tenants/tenants/middleware.py): a thread's
-- connections are the Django connection of each alias, `django.db.connections`.
use django_rls_tenants.Base.Core.{
  Bool, true, false, Option, none, some, List, [], ◌∷◌, ◌++◌, if◌then◌else◌,
}
use django_rls_tenants.Base.Text.{Text, text_eq}
use django_rls_tenants.Base.Outcome.{Outcome, returned, raised, and_then, Error, base_exception}
use django_rls_tenants.Gucs.{ContextGucs}
use django_rls_tenants.Affinity.Connection.{Config, Driver, World, Ran}
use django_rls_tenants.Affinity.Writes.{write_gucs}
use django_rls_tenants.Context.{Variables, context_gucs_of}

-- What `except Exception` catches.
abbrev pub is_exception : Error → Bool
is_exception base_exception = false
is_exception _ = true

-- `with suppress(Exception)`
abbrev pub suppressed : Outcome (Unit {0}) → Outcome (Unit {0})
suppressed (returned u) = returned u
suppressed (raised e) = if is_exception e then returned tt else raised e

module _ (d : Driver) where
  abbrev pub ThreadConnections : Type 0
  ThreadConnections = Text → World d

  -- One more state of the connection of an alias.
  unfoldable pub with_connection : Text → World d → ThreadConnections → ThreadConnections
  with_connection a w cs b = if text_eq b a then w else cs b

  module _ (connect : World d → Ran d (Unit {0})) (conf : Config) where
    -- `write_gucs(connections[db_alias], values)`
    unfoldable pub write_alias :
        Option ContextGucs → Text → ThreadConnections → Outcome (Unit {0}) × ThreadConnections
    write_alias values a cs =
        let (o, w) = write_gucs d connect conf values false (cs a) in (o, with_connection a w cs)

    -- The cleanup of `_set_gucs_on_all_databases`, `_clear_alias_gucs` on each alias.
    unfoldable pub clear_aliases :
        List Text → ThreadConnections → Outcome (Unit {0}) × ThreadConnections
    clear_aliases [] cs = (returned tt, cs)
    clear_aliases (a ∷ aliases) cs =
        let (o, cs₁) = write_alias none a cs in
        and_then (suppressed o, cs₁) (λ _ cs₂. clear_aliases aliases cs₂)

    -- Its `except` clause, with the `raise` at the end.
    abbrev pub undo_completed :
        Error → List Text → ThreadConnections → Outcome (Unit {0}) × ThreadConnections
    undo_completed e completed cs =
        if is_exception e
        then and_then (clear_aliases completed cs) (λ _ cs₁. (raised e, cs₁))
        else (raised e, cs)

    -- Its loop; `completed` is `completed_aliases`.
    unfoldable pub write_aliases :
        ContextGucs
        → List Text
        → List Text
        → ThreadConnections
        → Outcome (Unit {0}) × ThreadConnections
    write_aliases gucs [] completed cs = (returned tt, cs)
    write_aliases gucs (a ∷ aliases) completed cs =
        let (o, cs₁) = write_alias (some gucs) a cs in
        let rest = write_aliases gucs aliases (completed ++ a ∷ []) cs₁ in
        elim o [ returned u ↦ rest | raised e ↦ undo_completed e completed cs₁ ]

    -- `_set_gucs_on_all_databases`
    unfoldable pub set_gucs_on_all_databases :
        Text → Variables → ThreadConnections → Outcome (Unit {0}) × ThreadConnections
    set_gucs_on_all_databases prefix guc_vars cs =
        if conf.use_local_set
        then (returned tt, cs)
        else and_then (context_gucs_of prefix guc_vars, cs)
            (λ gucs cs₁. write_aliases gucs conf.databases [] cs₁)
