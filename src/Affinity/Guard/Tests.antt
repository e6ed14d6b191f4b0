-- ===== src/Affinity/Guard/Tests.antt =====
-- The guard on a concrete connection.
use django_rls_tenants.Base.Core.{◌≡◌, refl, ◌⊎◌, inl, inr, true, false, none, some, [], ◌∷◌, arith}
use django_rls_tenants.Base.Text.{codes, text_eq, text_in}
use django_rls_tenants.Gucs.{ContextGucs, held}
use django_rls_tenants.Affinity.Server.{settled}
use django_rls_tenants.Affinity.Connection.{Config, World, Ran, returned, raised, Error}
use django_rls_tenants.Affinity.Tracker.{SessionGucs, attach, fresh, set_values, sync_transaction}
use django_rls_tenants.Affinity.Sql.{text, parse, controls_the_transaction}
use django_rls_tenants.Affinity.Writes.{
  apply_if_stale, apply_observed, applies, write_gucs, writing, write_on, ensure_connection,
  execute_write, observe, observed, after_writing, record_values, check_local, is_guarded,
}
use django_rls_tenants.Affinity.Guard.{
  guard, guarded, run_prepared, prepare, conclude, follow_statement, suspect_after, suspects,
  needs_own_transaction,
}
use django_rls_tenants.Affinity.Example.{
  effect, server, status_of, driver, driver_laws, implicit_begin, tenant_7,
}
use django_rls_tenants.Affinity.Tracker.Sound.{IsSound-settled}
use django_rls_tenants.Affinity.Guard.Isolation.{guard-isolates}
use django_rls_tenants.Affinity.Guard.OwnTransaction.{
  guard-runs_in_own_transaction, in_own_transaction, IsBegun,
}
use django_rls_tenants.Gucs.{cleared}
use django_rls_tenants.Affinity.Guard.Committed.{in_own_transaction-ends}
use django_rls_tenants.Affinity.Tracker.Session.{Reach-IsSound, here, next, begins, writes}
use django_rls_tenants.Affinity.Server.{begun}
use django_rls_tenants.Affinity.Tracker.{end_transaction}
use django_rls_tenants.Affinity.Tracker.Sound.{IsSound}
use django_rls_tenants.Affinity.Sql.{refused_in_a_transaction}
use django_rls_tenants.Affinity.Writes.Followed.{IsApplied, write_gucs-IsApplied}

abbrev config : Config
config = record {
  databases = codes "default" ∷ [];
  use_local_set = false;
  guc_is_admin = codes "rls.is_admin";
  guc_current_tenant = codes "rls.current_tenant";
}

-- A connection in autocommit that a context of tenant 7 left its values on.
abbrev left_over : World driver
left_over = record {
  alias = codes "default";
  raw = some 1;
  session = settled tenant_7;
  autocommit = true;
  needs_rollback = false;
  tracker = some (attach (some 1) (held tenant_7) fresh);
  depth = 0;
}

abbrev no_connect : World driver → Ran driver (Unit {0})
no_connect w = (returned tt, w)

-- The session that a statement runs on, as its result.
abbrev see : World driver → Ran driver ContextGucs
see w = (returned w.session.now, w)

-- Outside any context the values of the last one are cleared first.
outside_clears :
    (guard driver no_connect config none see (text (codes "SELECT 1")) left_over).0
    ≡ returned (record { is_admin = ""; current_tenant = "" })
unfolding guard guarded run_prepared prepare conclude follow_statement suspect_after suspects effect
    needs_own_transaction parse apply_if_stale apply_observed applies write_gucs writing write_on
    ensure_connection execute_write observe observed after_writing record_values check_local server
    status_of implicit_begin attach sync_transaction set_values is_guarded controls_the_transaction
    text_in text_eq
outside_clears = refl

guard-isolates_example :
    ((x : Error) × ((execute : World driver → Ran driver ContextGucs)
        → (guard driver no_connect config none execute (text (codes "SELECT 1")) left_over).0
          ≡ raised x))
    ⊎ ((w' : World driver) × (t' : SessionGucs) × ((execute : World driver → Ran driver ContextGucs)
          → guard driver no_connect config none execute (text (codes "SELECT 1")) left_over
            ≡ conclude driver no_connect config
                (parse (text (codes "SELECT 1")))
                (status_of (settled tenant_7))
                false
                (execute w'))
        × IsApplied driver server driver_laws no_connect config none left_over 1 w' t')
unfolding attach is_guarded text_in status_of controls_the_transaction parse
guard-isolates_example =
    guard-isolates driver server driver_laws no_connect config none left_over 1
      (attach (some 1) (held tenant_7) fresh)
      (record {
        is_open = refl;
        tracked = refl;
        attached = refl;
        sound = IsSound-settled _ tenant_7 refl refl;
      })
      (record {
        configured = refl;
        not_failed = omega arith;
        not_bad = omega arith;
        no_rollback = refl;
      })
      (inl refl) (text (codes "SELECT 1")) refl refl

write_gucs-IsApplied_example :
    ((x : Error) × ((write_gucs driver no_connect config (some tenant_7) false left_over).0
        ≡ raised x))
    ⊎ ((w' : World driver) × (t' : SessionGucs) × (write_gucs driver no_connect config
            (some tenant_7)
            false
            left_over
          ≡ (returned tt, w'))
        × IsApplied driver server driver_laws no_connect config (some tenant_7) left_over 1 w' t')
unfolding attach is_guarded text_in
write_gucs-IsApplied_example =
    write_gucs-IsApplied driver server driver_laws no_connect config (some tenant_7) false left_over
      1 (attach (some 1) (held tenant_7) fresh)
      (record {
        is_open = refl;
        tracked = refl;
        attached = refl;
        sound = IsSound-settled _ tenant_7 refl refl;
      })
      refl (inr (inl refl))

-- The same library in local mode, on a session without values.
abbrev local_config : Config
local_config = record config { use_local_set = true }

abbrev alone : World driver
alone = record left_over {
  session = settled (record { is_admin = ""; current_tenant = "" });
  tracker = some (attach (some 1) cleared fresh);
}

guard-runs_in_own_transaction_example :
    ((y : Error) × ((execute : World driver → Ran driver ContextGucs)
        → (guard driver no_connect local_config
            (some tenant_7)
            execute
            (text (codes "SELECT 1"))
            alone).0
          ≡ raised y))
    ⊎ ((t' : SessionGucs) × (w' : World driver) × ((execute : World driver → Ran driver ContextGucs)
          → guard driver no_connect local_config
              (some tenant_7)
              execute
              (text (codes "SELECT 1"))
              alone
            ≡ conclude driver no_connect local_config
                (parse (text (codes "SELECT 1")))
                (status_of (settled (record { is_admin = ""; current_tenant = "" })))
                true
                (in_own_transaction driver execute w'))
        × IsBegun driver server driver_laws no_connect local_config (some tenant_7) alone 1 w' t')
unfolding attach is_guarded text_in status_of controls_the_transaction parse
    refused_in_a_transaction
guard-runs_in_own_transaction_example =
    guard-runs_in_own_transaction driver server driver_laws no_connect local_config (some tenant_7)
      alone 1 (attach (some 1) cleared fresh)
      (record {
        is_open = refl;
        tracked = refl;
        attached = refl;
        sound = IsSound-settled _ (record { is_admin = ""; current_tenant = "" }) refl refl;
      })
      (record {
        active = refl;
        local_set = refl;
        configured = refl;
        autocommit = refl;
        outside = refl;
      })
      (text (codes "SELECT 1")) refl refl refl

-- A transaction of the guard's own, with the values of tenant 7.
abbrev of_7 : SessionGucs
of_7 = set_values (held tenant_7) true (sync_transaction 2 (attach (some 1) cleared fresh))

abbrev none_set : ContextGucs
none_set = record { is_admin = ""; current_tenant = "" }

abbrev in_7 : World driver
in_7 = record alone { session = record (begun none_set) { now = tenant_7 }; tracker = some of_7 }

of_7-IsSound : IsSound of_7 (record (begun none_set) { now = tenant_7 })
unfolding server effect attach
of_7-IsSound =
    Reach-IsSound server
      (next
        (next here (begins {v = settled none_set} {w = begun none_set} 2 refl refl (omega arith)))
        (writes {w = record (begun none_set) { now = tenant_7 }} (held tenant_7) tenant_7 true refl
          refl (inl refl)))
      (IsSound-settled (attach (some 1) cleared fresh) none_set refl refl)

in_own_transaction-ends_example :
    ((y : Error) × ((in_own_transaction driver see in_7).0 ≡ raised y))
    ⊎ ((w₃ : World driver) × (in_own_transaction driver see in_7 ≡ (returned tenant_7, w₃))
        × (w₃.session ≡ settled none_set)
        × (w₃.tracker ≡ some (end_transaction (some true) of_7))
        × IsSound (end_transaction (some true) of_7) w₃.session)
in_own_transaction-ends_example =
    in_own_transaction-ends driver server driver_laws see in_7 in_7 tenant_7 refl of_7 refl
      of_7-IsSound refl refl
