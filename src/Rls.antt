-- ===== src/Rls.antt =====
-- The GUC helpers and the low-level contexts of django_rls_tenants/rls.
pub mod Guc
pub mod Context
pub mod Bypass
