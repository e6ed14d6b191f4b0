-- ===== src/Policy/Safe/Agrees.antt =====
-- The predicates of django_rls_tenants/tenants/sql.py beside the policies.
use django_rls_tenants.Base.Text.{Text}
use django_rls_tenants.Base.Outcome.{Outcome}
use django_rls_tenants.Policy.Expr.{Expr}
