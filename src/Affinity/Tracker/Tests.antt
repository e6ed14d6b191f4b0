-- ===== src/Affinity/Tracker/Tests.antt =====
-- The tracker on concrete sessions.
use django_rls_tenants.Base.Core.{◌≡◌, refl, inl, true, some, arith}
use django_rls_tenants.Gucs.{held, Agrees}
use django_rls_tenants.Affinity.Server.{View, settled, begun}
use django_rls_tenants.Affinity.Tracker.{attach, fresh, set_values, sync_transaction}
use django_rls_tenants.Affinity.Tracker.Session.{attached-Agrees, here, next, begins, writes}
use django_rls_tenants.Affinity.Example.{effect, server, tenant_7, tenant_8}

-- A transaction block with a local write, a savepoint, a write for the session and a rollback to the
-- savepoint, and then its commit.
abbrev in_block_7 : View
in_block_7 = record (begun tenant_7) { now = tenant_8 }

attached-Agrees_example :
    Agrees
      (set_values
        (held tenant_8)
        true
        (sync_transaction 2 (attach (some 1) (held tenant_7) fresh))).values
      tenant_8
    × ((set_values
          (held tenant_8)
          true
          (sync_transaction 2 (attach (some 1) (held tenant_7) fresh))).in_transaction
        ≡ true)
unfolding server effect
attached-Agrees_example =
    attached-Agrees server (some 1) (held tenant_7) tenant_7
      (set_values (held tenant_8) true (sync_transaction 2 (attach (some 1) (held tenant_7) fresh)))
      in_block_7 refl
      (next
        (next here (begins {v = settled tenant_7} {w = begun tenant_7} 2 refl refl (omega arith)))
        (writes {w = in_block_7} (held tenant_8) tenant_8 true refl refl (inl refl)))
