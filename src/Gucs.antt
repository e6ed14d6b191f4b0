-- ===== src/Gucs.antt =====
-- The values of the two GUCs that a policy reads (`ContextGucs` of
-- django_rls_tenants/tenants/state.py), and what the guard believes a session holds (`_Tracked` of
-- django_rls_tenants/tenants/affinity.py).
use django_rls_tenants.Base.Core.{
  String, ◌≡◌, ◌↔◌, Bool, true, false, ◌&&◌, Option, none, some, arith, str_eq, eq_iff,
}

pub record ContextGucs : Type 0 where
  pub is_admin : String
  pub current_tenant : String

-- `str(tenant_id)` is the text of the tenant id.
unfoldable pub for_tenant : String → ContextGucs
for_tenant tenant_id = record { is_admin = "false"; current_tenant = tenant_id }

abbrev pub admin_gucs : ContextGucs
admin_gucs = record { is_admin = "true"; current_tenant = "" }

-- Both GUCs empty: what `write_gucs` writes for no context.
abbrev pub cleared_gucs : ContextGucs
cleared_gucs = record { is_admin = ""; current_tenant = "" }

-- `ContextGucs | _Unknown | None`.
pub data Tracked : Type 0 where
  held : ContextGucs → Tracked
  cleared : Tracked
  unknown : Tracked

-- What a context, or none, amounts to on the guard's side.
abbrev pub tracked_of : Option ContextGucs → Tracked
tracked_of none = cleared
tracked_of (some g) = held g

-- `context_gucs is not None`
abbrev pub is_active : Option ContextGucs → Bool
is_active none = false
is_active (some _) = true

-- The pair that is written for a context, or for none.
abbrev pub written_for : Option ContextGucs → ContextGucs
written_for none = cleared_gucs
written_for (some g) = g

-- `==` of two named tuples.
abbrev pub gucs_eq : ContextGucs → ContextGucs → Bool
gucs_eq a b = str_eq a.is_admin b.is_admin && str_eq a.current_tenant b.current_tenant

-- `==` of two tracked values.
abbrev pub tracked_eq : Tracked → Tracked → Bool
tracked_eq (held a) (held b) = gucs_eq a b
tracked_eq cleared cleared = true
tracked_eq unknown unknown = true
tracked_eq _ _ = false

pub gucs_eq_iff : (a b : ContextGucs) → (gucs_eq a b ≡ true) ↔ (a ≡ b)
gucs_eq_iff a b =
    ground (arith, eq_iff a.is_admin b.is_admin, eq_iff a.current_tenant b.current_tenant)

pub tracked_eq_iff : (a b : Tracked) → (tracked_eq a b ≡ true) ↔ (a ≡ b)
tracked_eq_iff (held a) (held b) = ground (arith, gucs_eq_iff a b)
tracked_eq_iff (held a) cleared = ground arith
tracked_eq_iff (held a) unknown = ground arith
tracked_eq_iff cleared (held b) = ground arith
tracked_eq_iff cleared cleared = ground arith
tracked_eq_iff cleared unknown = ground arith
tracked_eq_iff unknown (held b) = ground arith
tracked_eq_iff unknown cleared = ground arith
tracked_eq_iff unknown unknown = ground arith

-- A belief is right about a session: it is unknown, or it is what the session holds.
abbrev pub Agrees : Tracked → ContextGucs → Type 0
Agrees (held g) now = now ≡ g
Agrees cleared now = now ≡ cleared_gucs
Agrees unknown now = Unit
