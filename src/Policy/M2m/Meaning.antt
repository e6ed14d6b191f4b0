-- ===== src/Policy/M2m/Meaning.antt =====
-- What the policy of an `RLSM2MConstraint` (django_rls_tenants/rls/constraints.py) lets through.
use django_rls_tenants.Base.Core.{Bool, true, false, Option, none}
use django_rls_tenants.Base.Text.{Text}
use django_rls_tenants.Base.Outcome.{Outcome}
use django_rls_tenants.Policy.Expr.{Expr}

-- Something that was checked keeps a side.
abbrev has_side : Option Text → Option Text → Bool
has_side none none = false
has_side f t = true
