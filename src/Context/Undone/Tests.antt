-- ===== src/Context/Undone/Tests.antt =====
-- Two aliases, and the connection of the second cannot be opened.
use django_rls_tenants.Base.Core.{◌≡◌, refl, true, false, none, some, [], ◌∷◌, if◌then◌else◌}
use django_rls_tenants.Base.Text.{Text, codes, text_eq, text_in}
use django_rls_tenants.Base.Outcome.{database_error, raised}
use django_rls_tenants.Gucs.{cleared, cleared_gucs}
use django_rls_tenants.Affinity.Server.{settled}
use django_rls_tenants.Affinity.Connection.{Config, World, Ran}
use django_rls_tenants.Affinity.Tracker.{attach, fresh, set_values, sync_transaction}
use django_rls_tenants.Affinity.Writes.{
  write_gucs, writing, write_on, ensure_connection, execute_write, observe, observed, after_writing,
  record_values, check_local, is_guarded, forget_values,
}
use django_rls_tenants.Affinity.Example.{driver, effect, status_of, implicit_begin}
use django_rls_tenants.Context.{Variables, context_gucs_of, variable}
use django_rls_tenants.Context.Databases.{
  with_connection, write_alias, clear_aliases, write_aliases, set_gucs_on_all_databases,
}
use django_rls_tenants.Context.Undone.{IsUndone, set_gucs_on_all_databases-IsUndone}

abbrev two_databases : Config
two_databases = record {
  databases = codes "default" ∷ codes "replica" ∷ [];
  use_local_set = false;
  guc_is_admin = codes "rls.is_admin";
  guc_current_tenant = codes "rls.current_tenant";
}

abbrev no_server : World driver → Ran driver (Unit {0})
no_server w = (raised database_error, w)

abbrev before : Text → World driver
before a = record {
  alias = a;
  raw = if text_eq a (codes "default") then some 1 else none;
  session = settled cleared_gucs;
  autocommit = true;
  needs_rollback = false;
  tracker = some (attach (some 1) cleared fresh);
  depth = 0;
}

abbrev tenant_7_variables : Variables
tenant_7_variables = (codes "rls.current_tenant", "7") ∷ (codes "rls.is_admin", "false") ∷ []

abbrev after : Text → World driver
after =
    (set_gucs_on_all_databases driver no_server two_databases (codes "rls") tenant_7_variables
      before).1

-- The values that the first alias had got are cleared.
cleared_again : (after (codes "default")).session.now ≡ cleared_gucs
unfolding set_gucs_on_all_databases write_aliases clear_aliases write_alias with_connection
    write_gucs writing write_on ensure_connection execute_write observe observed after_writing
    record_values check_local is_guarded forget_values effect status_of implicit_begin attach
    sync_transaction set_values text_in text_eq context_gucs_of variable
cleared_again = refl

is_refused :
    set_gucs_on_all_databases driver no_server two_databases (codes "rls") tenant_7_variables before
    ≡ (raised database_error, after)
unfolding set_gucs_on_all_databases write_aliases clear_aliases write_alias with_connection
    write_gucs writing write_on ensure_connection execute_write observe observed after_writing
    record_values check_local is_guarded forget_values effect status_of implicit_begin attach
    sync_transaction set_values text_in text_eq context_gucs_of variable
is_refused = refl

set_gucs_on_all_databases-IsUndone_example :
    IsUndone driver no_server two_databases (before (codes "default")) (after (codes "default"))
set_gucs_on_all_databases-IsUndone_example =
    set_gucs_on_all_databases-IsUndone driver no_server two_databases (codes "rls")
      tenant_7_variables before after database_error is_refused refl (codes "default")
