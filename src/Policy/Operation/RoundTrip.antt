-- ===== src/Policy/Operation/RoundTrip.antt =====
-- `AddRLSPolicy.deconstruct` and the constructor (django_rls_tenants/operations.py).
use mathlib.Core.Path.{subst}
use django_rls_tenants.Base.Core.{◌≡◌, ◌∙◌, sym, Option, List}
use django_rls_tenants.Base.Text.{Text}
use django_rls_tenants.Base.Outcome.{returned, ◌>>=◌, ◌>>◌, >>=-returned}
use django_rls_tenants.Policy.Predicates.{Given, validated_predicates}
use django_rls_tenants.Policy.Constraint.{unless_empty, given_again}
use django_rls_tenants.Policy.Constraint.RoundTrip.{
  or_default-unless_default, or_empty-unless_empty, validated_predicates-given_again, without_check,
  returned-injective,
}
use django_rls_tenants.Policy.Operation.{
  AddRlsPolicy, AddRlsKwargs, default_field, check_add, init_add, new_add_rls_policy,
  deconstruct_add,
}

init_add-again :
    (model_name field : Text) (app_label pk_type tenant_var admin_var : Option Text)
    (flags : List Text)
    → (given : Option (List Given)) (op : AddRlsPolicy)
    → init_add model_name field app_label pk_type tenant_var admin_var flags given ≡ returned op
    → init_add op.model_name op.field op.app_label op.tenant_pk_type op.guc_tenant_var
        op.guc_admin_var op.extra_bypass_flags
        (unless_empty (given_again op.extra_predicates))
      ≡ returned op
unfolding init_add
init_add-again model_name field app_label pk_type tenant_var admin_var flags given op h =
    let (predicates, p, q) =
      >>=-returned (validated_predicates given)
        {f = λ predicates. returned (record {
          model_name = model_name;
          field = field;
          app_label = app_label;
          tenant_pk_type = pk_type;
          guc_tenant_var = tenant_var;
          guc_admin_var = admin_var;
          extra_bypass_flags = flags;
          extra_predicates = predicates;
        })}
        (without_check (check_add model_name field app_label pk_type tenant_var admin_var flags)
          h) in
    subst
      (λ (x : AddRlsPolicy).
        init_add x.model_name x.field x.app_label x.tenant_pk_type x.guc_tenant_var x.guc_admin_var
          x.extra_bypass_flags (unless_empty (given_again x.extra_predicates))
        ≡ returned x)
      (returned-injective q)
      ((λ i.
          check_add model_name field app_label pk_type tenant_var admin_var flags
          >> ((validated_predicates-given_again predicates ∙ sym p) i >>= λ ps. returned (record {
            model_name = model_name;
            field = field;
            app_label = app_label;
            tenant_pk_type = pk_type;
            guc_tenant_var = tenant_var;
            guc_admin_var = admin_var;
            extra_bypass_flags = flags;
            extra_predicates = ps;
          })))
        ∙ h
        ∙ sym q)

-- If AddRLSPolicy(**kwargs) gives an operation, the constructor gives the same operation again for
-- the keyword arguments of its deconstruct.
pub new_add_rls_policy-deconstruct :
    (kwargs : AddRlsKwargs) (op : AddRlsPolicy)
    → new_add_rls_policy kwargs ≡ returned op
    → new_add_rls_policy (deconstruct_add op) ≡ returned op
unfolding new_add_rls_policy deconstruct_add
new_add_rls_policy-deconstruct kwargs op h =
    (λ i.
      init_add op.model_name (or_default-unless_default default_field op.field i) op.app_label
        op.tenant_pk_type op.guc_tenant_var op.guc_admin_var
        (or_empty-unless_empty op.extra_bypass_flags i)
        (unless_empty (given_again op.extra_predicates)))
    ∙ init_add-again kwargs.model_name _ kwargs.app_label kwargs.tenant_pk_type
        kwargs.guc_tenant_var kwargs.guc_admin_var _ kwargs.extra_predicates op h
