-- ===== src/Affinity/Ends/Tests.antt =====
-- The hooks on a transaction of a request, and another alias beside it.
use django_rls_tenants.Base.Core.{◌≡◌, refl, true, false, none, some, [], ◌∷◌, arith, if◌then◌else◌}
use django_rls_tenants.Base.Text.{codes, text_eq}
use django_rls_tenants.Gucs.{held}
use django_rls_tenants.Affinity.Server.{settled, begun}
use django_rls_tenants.Affinity.Tracker.{SessionGucs, attach, fresh, sync_transaction}
use django_rls_tenants.Affinity.Tracker.Sound.{IsSound, IsSound-settled}
use django_rls_tenants.Affinity.Tracker.Session.{Reach-IsSound, here, next, begins}
use django_rls_tenants.Affinity.Connection.{Config, World, returned}
use django_rls_tenants.Affinity.Example.{effect, server, driver, driver_laws, tenant_7}
use django_rls_tenants.Affinity.Writes.Followed.{IsFollowed}
use django_rls_tenants.Affinity.Ends.{Connections, transaction_end, settle_other_aliases}
use django_rls_tenants.Affinity.Ends.Followed.{
  IsEndOf, driver_end, end_command, transaction_end-IsFollowed,
}
use django_rls_tenants.Affinity.Ends.Others.{settle_other_aliases-using}

abbrev begun_7 : SessionGucs
begun_7 = sync_transaction 2 (attach (some 1) (held tenant_7) fresh)

abbrev in_transaction : World driver
in_transaction = record {
  alias = codes "default";
  raw = some 1;
  session = begun tenant_7;
  autocommit = false;
  needs_rollback = false;
  tracker = some begun_7;
  depth = 0;
}

begun_7-IsSound : IsSound begun_7 (begun tenant_7)
unfolding server effect attach
begun_7-IsSound =
    Reach-IsSound server
      (next here (begins {v = settled tenant_7} {w = begun tenant_7} 2 refl refl (omega arith)))
      (IsSound-settled (attach (some 1) (held tenant_7) fresh) tenant_7 refl refl)

begun_7-IsFollowed : IsFollowed driver in_transaction 1 begun_7
unfolding attach sync_transaction
begun_7-IsFollowed = record {
  is_open = refl;
  tracked = refl;
  attached = refl;
  sound = begun_7-IsSound;
}

transaction_end-IsFollowed_example :
    IsEndOf driver server driver_laws in_transaction 1 begun_7 begun_7-IsFollowed refl true
      (transaction_end driver (driver_end driver (end_command true)) true in_transaction)
transaction_end-IsFollowed_example =
    transaction_end-IsFollowed driver server driver_laws in_transaction 1 begun_7 begun_7-IsFollowed
      refl true

abbrev two_aliases : Config
two_aliases = record {
  databases = codes "default" ∷ codes "replica" ∷ [];
  use_local_set = false;
  guc_is_admin = codes "rls.is_admin";
  guc_current_tenant = codes "rls.current_tenant";
}

abbrev connections : Connections driver
connections alias =
    if text_eq alias (codes "default")
    then some in_transaction
    else some (record in_transaction { alias = codes "replica" })

settle_other_aliases-using_example :
    (settle_other_aliases driver
        (λ w. (returned tt, w))
        two_aliases
        none
        (some (codes "default"))
        true
        connections).1
      (codes "default")
    ≡ some in_transaction
unfolding text_eq
settle_other_aliases-using_example =
    settle_other_aliases-using driver (λ w. (returned tt, w)) two_aliases none (codes "default")
      true connections
