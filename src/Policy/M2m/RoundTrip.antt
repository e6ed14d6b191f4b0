-- ===== src/Policy/M2m/RoundTrip.antt =====
-- `deconstruct` and the constructors of the many-to-many policies, the constraint's
-- (django_rls_tenants/rls/constraints.py) and the operation's (django_rls_tenants/operations.py).
use mathlib.Core.Path.{subst}
use django_rls_tenants.Base.Core.{
  ◌≡◌, ◌∙◌, ap, sym, refl, Option, none, some, inl, inr, if◌then◌else◌, Bool-cases,
}
use django_rls_tenants.Base.Text.{Text, text_eq, text_eq_iff}
use django_rls_tenants.Base.Outcome.{Outcome, returned, ◌>>◌}
use django_rls_tenants.Policy.Constraint.{default_tenant_var, default_admin_var, default_pk_type}
use django_rls_tenants.Policy.Constraint.RoundTrip.{
  or_default-unless_default, without_check, returned-injective,
}
use django_rls_tenants.Policy.M2m.{
  M2mConstraint, M2mKwargs, default_tenant_fk, or_tenant, unless_tenant, check_m2m, m2m_of,
  init_m2m, new_m2m_constraint, deconstruct_m2m,
}
use django_rls_tenants.Policy.M2mOperation.{
  AddM2mRlsPolicy, AddM2mKwargs, check_add_m2m, add_m2m_of, init_add_m2m, new_add_m2m,
  deconstruct_add_m2m,
}

or_tenant-unless_tenant : (fk : Option Text) → or_tenant (unless_tenant fk) ≡ fk
or_tenant-unless_tenant none = refl
or_tenant-unless_tenant (some fk) = elim (Bool-cases (text_eq fk default_tenant_fk)) [
  | inl e ↦
      (λ i. or_tenant (if e i then none else some (some fk)))
      ∙ ap (λ t. some t) (sym ((text_eq_iff fk default_tenant_fk).0 e))
  | inr e ↦ (λ i. or_tenant (if e i then none else some (some fk)))
]

-- What was returned after a check is what was to be.
returned-check :
    {A : Type 0} (m : Outcome (Unit {0})) {a b : A} → (m >> returned a) ≡ returned b → a ≡ b
returned-check m h = returned-injective (without_check m h)

init_m2m-again : (x c : M2mConstraint) → init_m2m x ≡ returned c → init_m2m c ≡ returned c
unfolding init_m2m
init_m2m-again x c h =
    let e = returned-check (check_m2m x) h in
    subst (λ (z : M2mConstraint). init_m2m z ≡ returned z) e (h ∙ ap (λ z. returned z) (sym e))

pub new_m2m_constraint-init :
    (kwargs : M2mKwargs) (c : M2mConstraint)
    → new_m2m_constraint kwargs ≡ returned c
    → init_m2m c ≡ returned c
unfolding new_m2m_constraint
new_m2m_constraint-init kwargs c h = init_m2m-again (m2m_of kwargs) c h

-- If RLSM2MConstraint(**kwargs) gives a constraint, the constructor gives the same constraint again
-- for the keyword arguments of its deconstruct, a tenant foreign key of None included.
pub new_m2m_constraint-deconstruct :
    (kwargs : M2mKwargs) (c : M2mConstraint)
    → new_m2m_constraint kwargs ≡ returned c
    → new_m2m_constraint (deconstruct_m2m c) ≡ returned c
unfolding new_m2m_constraint deconstruct_m2m
new_m2m_constraint-deconstruct kwargs c h =
    (λ i. init_m2m (record {
      name = c.name;
      from_model = c.from_model;
      to_model = c.to_model;
      from_fk = c.from_fk;
      to_fk = c.to_fk;
      from_tenant_fk = or_tenant-unless_tenant c.from_tenant_fk i;
      to_tenant_fk = or_tenant-unless_tenant c.to_tenant_fk i;
      guc_tenant_var = or_default-unless_default default_tenant_var c.guc_tenant_var i;
      guc_admin_var = or_default-unless_default default_admin_var c.guc_admin_var i;
      tenant_pk_type = or_default-unless_default default_pk_type c.tenant_pk_type i;
    }))
    ∙ init_m2m-again (m2m_of kwargs) c h

init_add_m2m-again :
    (x op : AddM2mRlsPolicy) → init_add_m2m x ≡ returned op → init_add_m2m op ≡ returned op
unfolding init_add_m2m
init_add_m2m-again x op h =
    let e = returned-check (check_add_m2m x) h in
    subst (λ (z : AddM2mRlsPolicy). init_add_m2m z ≡ returned z) e
      (h ∙ ap (λ z. returned z) (sym e))

-- The operation.
pub new_add_m2m-deconstruct :
    (kwargs : AddM2mKwargs) (op : AddM2mRlsPolicy)
    → new_add_m2m kwargs ≡ returned op
    → new_add_m2m (deconstruct_add_m2m op) ≡ returned op
unfolding new_add_m2m deconstruct_add_m2m
new_add_m2m-deconstruct kwargs op h =
    (λ i. init_add_m2m (record {
      m2m_table = op.m2m_table;
      from_model = op.from_model;
      to_model = op.to_model;
      from_fk = op.from_fk;
      to_fk = op.to_fk;
      from_tenant_fk = or_tenant-unless_tenant op.from_tenant_fk i;
      to_tenant_fk = or_tenant-unless_tenant op.to_tenant_fk i;
      guc_tenant_var = or_default-unless_default default_tenant_var op.guc_tenant_var i;
      guc_admin_var = or_default-unless_default default_admin_var op.guc_admin_var i;
      tenant_pk_type = or_default-unless_default default_pk_type op.tenant_pk_type i;
    }))
    ∙ init_add_m2m-again (add_m2m_of kwargs) op h
