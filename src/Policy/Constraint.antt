-- ===== src/Policy/Constraint.antt =====
-- `RLSConstraint` of django_rls_tenants/rls/constraints.py: its options, and the SQL of its policies.
pub mod RoundTrip
pub mod Equal
use django_rls_tenants.Base.Core.{
  Bool, true, false, ◌&&◌, Option, none, some, List, [], ◌∷◌, ◌++◌, if◌then◌else◌,
}
use django_rls_tenants.Base.Text.{Text, codes, is_empty, text_eq}
use django_rls_tenants.Base.Outcome.{Outcome, returned, raised, ◌>>=◌, ◌>>◌}
use django_rls_tenants.Policy.Names.{
  validate_field_name, validate_pk_type, validate_guc_name_for_ddl, validate_flags,
}
use django_rls_tenants.Policy.Fragment.{tenant_value_sql}
use django_rls_tenants.Policy.Create.{
  build_policy_create_sql, build_policy_drop_sql, build_sharing_policy_create_sql,
  build_sharing_policy_drop_sql,
}
use django_rls_tenants.Policy.Model.{Model, Apps}
use django_rls_tenants.Policy.Predicates.{
  Predicate, Given, predicate, or_empty, validated_predicates, predicates_sql, predicate_eq,
}

pub record RlsConstraint : Type 0 where
  pub name : Text
  pub field : Text
  pub guc_tenant_var : Text
  pub guc_admin_var : Text
  pub tenant_pk_type : Text
  pub extra_bypass_flags : List Text
  pub extra_predicates : List Predicate

-- The keyword arguments of the constructor; `none` for one that is left out. For the last two,
-- `None` is the same.
pub record RlsKwargs : Type 0 where
  pub name : Text
  pub field : Text
  pub guc_tenant_var : Option Text
  pub guc_admin_var : Option Text
  pub tenant_pk_type : Option Text
  pub extra_bypass_flags : Option (List Text)
  pub extra_predicates : Option (List Given)

-- The default of an argument.
abbrev pub or_default : Text → Option Text → Text
or_default default none = default
or_default default (some given) = given

abbrev pub default_tenant_var : Text
default_tenant_var = codes "rls.current_tenant"

abbrev pub default_admin_var : Text
default_admin_var = codes "rls.is_admin"

abbrev pub default_pk_type : Text
default_pk_type = codes "int"

-- The checks of the constructor.
unfoldable pub check_rls : Text → Text → Text → Text → List Text → Outcome (Unit {0})
unfolding validate_field_name validate_pk_type validate_guc_name_for_ddl validate_flags
check_rls field tenant_pk_type guc_tenant_var guc_admin_var extra_bypass_flags = do
  validate_field_name field
  validate_pk_type tenant_pk_type
  validate_guc_name_for_ddl guc_tenant_var
  validate_guc_name_for_ddl guc_admin_var
  validate_flags extra_bypass_flags

-- `RLSConstraint.__init__`
unfoldable pub init_rls :
    Text → Text → Text → Text → Text → List Text → Option (List Given) → Outcome RlsConstraint
unfolding check_rls validated_predicates
init_rls name field guc_tenant_var guc_admin_var tenant_pk_type extra_bypass_flags
      extra_predicates =
    do
      check_rls field tenant_pk_type guc_tenant_var guc_admin_var extra_bypass_flags
      predicates ← validated_predicates extra_predicates
      returned (record {
        name = name;
        field = field;
        guc_tenant_var = guc_tenant_var;
        guc_admin_var = guc_admin_var;
        tenant_pk_type = tenant_pk_type;
        extra_bypass_flags = extra_bypass_flags;
        extra_predicates = predicates;
      })

-- `RLSConstraint(**kwargs)`
unfoldable pub new_rls_constraint : RlsKwargs → Outcome RlsConstraint
unfolding init_rls
new_rls_constraint kwargs =
    init_rls kwargs.name kwargs.field (or_default default_tenant_var kwargs.guc_tenant_var)
      (or_default default_admin_var kwargs.guc_admin_var)
      (or_default default_pk_type kwargs.tenant_pk_type) (or_empty kwargs.extra_bypass_flags)
      kwargs.extra_predicates

-- `if value != default: kwargs[...] = value`
abbrev pub unless_default : Text → Text → Option Text
unless_default default value = if text_eq value default then none else some value

-- `if values: kwargs[...] = values`
abbrev pub unless_empty {ℓ} : {A : Type ℓ} → List A → Option (List A)
unless_empty [] = none
unless_empty (x ∷ xs) = some (x ∷ xs)

-- The predicates as arguments again.
unfoldable pub given_again : List Predicate → List Given
given_again [] = []
given_again (p ∷ ps) = predicate p ∷ given_again ps

-- The keyword arguments of `RLSConstraint.deconstruct`
unfoldable pub deconstruct_rls : RlsConstraint → RlsKwargs
unfolding given_again
deconstruct_rls c = record {
  name = c.name;
  field = c.field;
  guc_tenant_var = unless_default default_tenant_var c.guc_tenant_var;
  guc_admin_var = unless_default default_admin_var c.guc_admin_var;
  tenant_pk_type = unless_default default_pk_type c.tenant_pk_type;
  extra_bypass_flags = unless_empty c.extra_bypass_flags;
  extra_predicates = unless_empty (given_again c.extra_predicates);
}

-- `==` of two lists.
unfoldable pub list_eq {ℓ} : {A : Type ℓ} → (A → A → Bool) → List A → List A → Bool
list_eq eq [] [] = true
list_eq eq (a ∷ l) (b ∷ m) = eq a b && list_eq eq l m
list_eq eq _ _ = false

-- `RLSConstraint.__eq__` of two of them
unfoldable pub rls_eq : RlsConstraint → RlsConstraint → Bool
unfolding list_eq predicate_eq text_eq
rls_eq c o =
    text_eq c.name o.name
    && (text_eq c.field o.field
        && (text_eq c.guc_tenant_var o.guc_tenant_var
            && (text_eq c.guc_admin_var o.guc_admin_var
                && (text_eq c.tenant_pk_type o.tenant_pk_type
                    && (list_eq text_eq c.extra_bypass_flags o.extra_bypass_flags
                        && list_eq predicate_eq c.extra_predicates o.extra_predicates)))))

-- `_SharingPolicySQL`: the sharing policy's SQL, built when the statement becomes a text.
pub record SharingPolicySql : Type 0 where
  pub model : Model
  pub predicates : List Predicate
  pub guc_tenant_var : Text
  pub tenant_pk_type : Text

-- `_SharingPolicySQL.__str__`
unfoldable pub sharing_text : Apps → SharingPolicySql → Outcome Text
unfolding predicates_sql build_sharing_policy_create_sql
sharing_text apps sharing =
    predicates_sql apps sharing.model
      (tenant_value_sql sharing.guc_tenant_var sharing.tenant_pk_type) sharing.predicates
    >>= λ sql. build_sharing_policy_create_sql sharing.model.db_table sql

-- The `Statement` of a policy, with the sharing policy after it if there is one.
pub data PolicyStatement : Type 0 where
  sql_only : Text → PolicyStatement
  sql_and_sharing : Text → SharingPolicySql → PolicyStatement

-- `str(statement)`
unfoldable pub statement_text : Apps → PolicyStatement → Outcome Text
unfolding sharing_text
statement_text apps (sql_only sql) = returned sql
statement_text apps (sql_and_sharing sql sharing) =
    sharing_text apps sharing >>= λ more. returned (sql ++ more)

-- The statement for the predicates given.
abbrev pub with_sharing : Text → SharingPolicySql → PolicyStatement
with_sharing sql sharing =
    if is_empty sharing.predicates then sql_only sql else sql_and_sharing sql sharing

-- `RLSConstraint.create_sql`
unfoldable pub rls_create_sql : RlsConstraint → Model → PolicyStatement
rls_create_sql c model =
    with_sharing
      (build_policy_create_sql model.db_table (c.field ++ codes "_id") c.guc_tenant_var
        c.guc_admin_var c.tenant_pk_type c.extra_bypass_flags)
      (record {
        model = model;
        predicates = c.extra_predicates;
        guc_tenant_var = c.guc_tenant_var;
        tenant_pk_type = c.tenant_pk_type;
      })

-- `RLSConstraint.constraint_sql`, over the editor's `deferred_sql`
unfoldable pub rls_constraint_sql :
    RlsConstraint → Model → List PolicyStatement → Text × List PolicyStatement
rls_constraint_sql c model deferred = ([], deferred ++ (rls_create_sql c model ∷ []))

-- The `DROP` of the sharing policy, if there is one, before the one of the tenant policy.
abbrev pub drop_sql : Text → List Predicate → Text
drop_sql table [] = build_policy_drop_sql table
drop_sql table (p ∷ ps) = build_sharing_policy_drop_sql table ++ build_policy_drop_sql table

-- `RLSConstraint.remove_sql`
unfoldable pub rls_remove_sql : RlsConstraint → Model → Text
rls_remove_sql c model = drop_sql model.db_table c.extra_predicates
