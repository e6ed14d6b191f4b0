-- ===== src/State.antt =====
-- The context variables of the active RLS context (django_rls_tenants/tenants/state.py, and the
-- block `_rls_state` of django_rls_tenants/tenants/context.py).
pub mod Var
pub mod Holder
pub mod Block
