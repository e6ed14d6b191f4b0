-- ===== src/State/Holder/Start.antt =====
-- A process that has entered no context yet.
use django_rls_tenants.Base.Core.{false, none, true}
use django_rls_tenants.Gucs.{ContextGucs}
use django_rls_tenants.State.Holder.{Holders}

abbrev pub start : Holders
start = record {
  live = λ h. record { values = none; block = true; alive = false };
  serial = 0;
  context_gucs = record { value = λ ctx. none; used = λ i. false; next = 0 };
}

abbrev pub tenant_7 : ContextGucs
tenant_7 = record { is_admin = "false"; current_tenant = "7" }
