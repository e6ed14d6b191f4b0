-- ===== src/Rls/Bypass.antt =====
-- django_rls_tenants/tenants/bypass.py: bypass flags without a context.
use django_rls_tenants.Base.Core.{Bool}
use django_rls_tenants.Base.Text.{Text, codes}
use django_rls_tenants.Base.Outcome.{Outcome}
use django_rls_tenants.Rls.Guc.{Database, Conn, set_guc, clear_guc}

module _ (d : Database) where
  unfoldable pub set_bypass_flag : Text → Bool → Conn d → Outcome (Unit {0}) × Conn d
  set_bypass_flag flag_name is_local conn = set_guc d flag_name (codes "true") is_local conn

  unfoldable pub clear_bypass_flag : Text → Bool → Conn d → Outcome (Unit {0}) × Conn d
  clear_bypass_flag flag_name is_local conn = clear_guc d flag_name is_local conn
