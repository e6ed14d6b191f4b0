-- ===== src/Policy/Constraint/RoundTrip.antt =====
-- `RLSConstraint.deconstruct` and the constructor (django_rls_tenants/rls/constraints.py).
use mathlib.Core.Path.{subst}
use django_rls_tenants.Base.Core.{
  ◌≡◌, ◌∙◌, ap, sym, refl, true, false, Option, none, some, List, [], ◌∷◌, inl, inr, if◌then◌else◌,
  Bool-cases,
}
use django_rls_tenants.Base.Text.{Text, text_eq, text_eq_iff}
use django_rls_tenants.Base.Outcome.{Outcome, returned, raised, ◌>>=◌, ◌>>◌, >>=-returned}
use django_rls_tenants.Policy.Predicates.{
  Predicate, Given, or_empty, all_predicates, validated_predicates,
}
use django_rls_tenants.Policy.Constraint.{
  RlsConstraint, RlsKwargs, or_default, unless_default, unless_empty, given_again,
  default_tenant_var, default_admin_var, default_pk_type, check_rls, init_rls, new_rls_constraint,
  deconstruct_rls,
}

pub or_default-unless_default :
    (default value : Text) → or_default default (unless_default default value) ≡ value
or_default-unless_default default value = elim (Bool-cases (text_eq value default)) [
  | inl e ↦ ap (or_default default) (of e) ∙ sym ((text_eq_iff value default).0 e)
  | inr e ↦ ap (or_default default) (of' e)
]
  where
    of : text_eq value default ≡ true → unless_default default value ≡ none
    of e = λ i. if e i then none else some value

    of' : text_eq value default ≡ false → unless_default default value ≡ some value
    of' e = λ i. if e i then none else some value

pub or_empty-unless_empty {ℓ} : {A : Type ℓ} (l : List A) → or_empty (unless_empty l) ≡ l
or_empty-unless_empty [] = refl
or_empty-unless_empty (x ∷ xs) = refl

all_predicates-given_again : (ps : List Predicate) → all_predicates (given_again ps) ≡ returned ps
unfolding all_predicates given_again
all_predicates-given_again [] = refl
all_predicates-given_again (p ∷ ps) =
    ap (λ o. o >>= λ more. returned (p ∷ more)) (all_predicates-given_again ps)

pub validated_predicates-given_again :
    (ps : List Predicate) → validated_predicates (unless_empty (given_again ps)) ≡ returned ps
unfolding validated_predicates
validated_predicates-given_again ps =
    ap all_predicates (or_empty-unless_empty (given_again ps)) ∙ all_predicates-given_again ps

-- A check that was passed.
pub without_check {ℓ} :
    {A : Type ℓ} (m : Outcome (Unit {0})) {k : Outcome A} {a : A}
    → (m >> k) ≡ returned a
    → k ≡ returned a
without_check (returned u) h = h
without_check (raised e) h = cc

pub returned-injective {ℓ} : {A : Type ℓ} {a b : A} → returned a ≡ returned b → a ≡ b
returned-injective {a = a} e = ap (λ o. elim o [ returned x ↦ x | raised e ↦ a ]) e

init_rls-again :
    (name field tenant_var admin_var pk_type : Text) (flags : List Text)
    (given : Option (List Given))
    → (c : RlsConstraint)
    → init_rls name field tenant_var admin_var pk_type flags given ≡ returned c
    → init_rls c.name c.field c.guc_tenant_var c.guc_admin_var c.tenant_pk_type c.extra_bypass_flags
        (unless_empty (given_again c.extra_predicates))
      ≡ returned c
unfolding init_rls
init_rls-again name field tenant_var admin_var pk_type flags given c h =
    let (predicates, p, q) =
      >>=-returned (validated_predicates given)
        {f = λ predicates. returned (record {
          name = name;
          field = field;
          guc_tenant_var = tenant_var;
          guc_admin_var = admin_var;
          tenant_pk_type = pk_type;
          extra_bypass_flags = flags;
          extra_predicates = predicates;
        })}
        (without_check (check_rls field pk_type tenant_var admin_var flags) h) in
    subst
      (λ (x : RlsConstraint).
        init_rls x.name x.field x.guc_tenant_var x.guc_admin_var x.tenant_pk_type
          x.extra_bypass_flags (unless_empty (given_again x.extra_predicates))
        ≡ returned x)
      (returned-injective q)
      ((λ i.
          check_rls field pk_type tenant_var admin_var flags
          >> ((validated_predicates-given_again predicates ∙ sym p) i >>= λ ps. returned (record {
            name = name;
            field = field;
            guc_tenant_var = tenant_var;
            guc_admin_var = admin_var;
            tenant_pk_type = pk_type;
            extra_bypass_flags = flags;
            extra_predicates = ps;
          })))
        ∙ h
        ∙ sym q)

-- If RLSConstraint(**kwargs) gives a constraint, the constructor gives the same constraint again
-- for the keyword arguments of its deconstruct.
pub new_rls_constraint-deconstruct :
    (kwargs : RlsKwargs) (c : RlsConstraint)
    → new_rls_constraint kwargs ≡ returned c
    → new_rls_constraint (deconstruct_rls c) ≡ returned c
unfolding new_rls_constraint deconstruct_rls
new_rls_constraint-deconstruct kwargs c h =
    (λ i.
      init_rls c.name c.field (or_default-unless_default default_tenant_var c.guc_tenant_var i)
        (or_default-unless_default default_admin_var c.guc_admin_var i)
        (or_default-unless_default default_pk_type c.tenant_pk_type i)
        (or_empty-unless_empty c.extra_bypass_flags i)
        (unless_empty (given_again c.extra_predicates)))
    ∙ init_rls-again kwargs.name _ _ _ _ _ kwargs.extra_predicates c h
