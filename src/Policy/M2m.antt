-- ===== src/Policy/M2m.antt =====
-- `RLSM2MConstraint` of django_rls_tenants/rls/constraints.py.
pub mod RoundTrip
pub mod Meaning
use django_rls_tenants.Base.Core.{
  Bool, true, false, ◌&&◌, Option, none, some, List, [], ◌∷◌, ◌++◌, if◌then◌else◌,
}
use django_rls_tenants.Base.Text.{Text, codes, text_eq}
use django_rls_tenants.Base.Outcome.{Outcome, returned, raised, value_error, exception, ◌>>=◌, ◌>>◌}
use django_rls_tenants.Policy.Names.{
  validate_field_name, validate_model_path, validate_pk_type, validate_guc_name_for_ddl, if_given,
}
use django_rls_tenants.Policy.Fragment.{bool_flag_sql}
use django_rls_tenants.Policy.Create.{
  build_m2m_conditions, build_m2m_create_sql, build_m2m_drop_sql,
}
use django_rls_tenants.Policy.Model.{Model, Apps}
use django_rls_tenants.Policy.Constraint.{
  or_default, default_tenant_var, default_admin_var, default_pk_type, unless_default,
}

-- `name` is the constraint's name.
pub record M2mConstraint : Type 0 where
  pub name : Text
  pub from_model : Text
  pub to_model : Text
  pub from_fk : Text
  pub to_fk : Text
  pub from_tenant_fk : Option Text
  pub to_tenant_fk : Option Text
  pub guc_tenant_var : Text
  pub guc_admin_var : Text
  pub tenant_pk_type : Text

-- The keyword arguments; `none` for one that is left out, `some none` for `None`.
pub record M2mKwargs : Type 0 where
  pub name : Text
  pub from_model : Text
  pub to_model : Text
  pub from_fk : Text
  pub to_fk : Text
  pub from_tenant_fk : Option (Option Text)
  pub to_tenant_fk : Option (Option Text)
  pub guc_tenant_var : Option Text
  pub guc_admin_var : Option Text
  pub tenant_pk_type : Option Text

abbrev pub default_tenant_fk : Text
default_tenant_fk = codes "tenant"

-- The default of an argument that may be `None`.
abbrev pub or_tenant : Option (Option Text) → Option Text
or_tenant none = some default_tenant_fk
or_tenant (some given) = given

-- `if tenant_fk != "tenant": kwargs[...] = tenant_fk`
abbrev pub unless_tenant : Option Text → Option (Option Text)
unless_tenant none = some none
unless_tenant (some fk) = if text_eq fk default_tenant_fk then none else some (some fk)

-- At least one side must be protected.
abbrev pub one_side : Option Text → Option Text → Outcome (Unit {0})
one_side none none = raised value_error
one_side _ _ = returned tt

-- The checks of the constructor.
unfoldable pub check_m2m : M2mConstraint → Outcome (Unit {0})
unfolding validate_field_name validate_model_path validate_pk_type validate_guc_name_for_ddl
check_m2m c = do
  validate_model_path c.from_model
  validate_model_path c.to_model
  validate_field_name c.from_fk
  validate_field_name c.to_fk
  if_given validate_field_name c.from_tenant_fk
  if_given validate_field_name c.to_tenant_fk
  one_side c.from_tenant_fk c.to_tenant_fk
  validate_pk_type c.tenant_pk_type
  validate_guc_name_for_ddl c.guc_tenant_var
  validate_guc_name_for_ddl c.guc_admin_var

-- `RLSM2MConstraint.__init__` of a constraint's attributes: they are what it was given.
unfoldable pub init_m2m : M2mConstraint → Outcome M2mConstraint
unfolding check_m2m
init_m2m c = check_m2m c >> returned c

-- The constraint's attributes, with the defaults of its arguments.
abbrev pub m2m_of : M2mKwargs → M2mConstraint
m2m_of kwargs = record {
  name = kwargs.name;
  from_model = kwargs.from_model;
  to_model = kwargs.to_model;
  from_fk = kwargs.from_fk;
  to_fk = kwargs.to_fk;
  from_tenant_fk = or_tenant kwargs.from_tenant_fk;
  to_tenant_fk = or_tenant kwargs.to_tenant_fk;
  guc_tenant_var = or_default default_tenant_var kwargs.guc_tenant_var;
  guc_admin_var = or_default default_admin_var kwargs.guc_admin_var;
  tenant_pk_type = or_default default_pk_type kwargs.tenant_pk_type;
}

-- `RLSM2MConstraint(**kwargs)`
unfoldable pub new_m2m_constraint : M2mKwargs → Outcome M2mConstraint
unfolding init_m2m
new_m2m_constraint kwargs = init_m2m (m2m_of kwargs)

-- The keyword arguments of `RLSM2MConstraint.deconstruct`
unfoldable pub deconstruct_m2m : M2mConstraint → M2mKwargs
deconstruct_m2m c = record {
  name = c.name;
  from_model = c.from_model;
  to_model = c.to_model;
  from_fk = c.from_fk;
  to_fk = c.to_fk;
  from_tenant_fk = unless_tenant c.from_tenant_fk;
  to_tenant_fk = unless_tenant c.to_tenant_fk;
  guc_tenant_var = unless_default default_tenant_var c.guc_tenant_var;
  guc_admin_var = unless_default default_admin_var c.guc_admin_var;
  tenant_pk_type = unless_default default_pk_type c.tenant_pk_type;
}

-- `==` of two names that may be `None`.
abbrev pub option_eq : Option Text → Option Text → Bool
option_eq none none = true
option_eq (some a) (some b) = text_eq a b
option_eq _ _ = false

-- `RLSM2MConstraint.__eq__` of two of them
unfoldable pub m2m_eq : M2mConstraint → M2mConstraint → Bool
unfolding text_eq
m2m_eq c o =
    text_eq c.name o.name
    && (text_eq c.from_model o.from_model
        && (text_eq c.to_model o.to_model
            && (text_eq c.from_fk o.from_fk
                && (text_eq c.to_fk o.to_fk
                    && (option_eq c.from_tenant_fk o.from_tenant_fk
                        && (option_eq c.to_tenant_fk o.to_tenant_fk
                            && (text_eq c.guc_tenant_var o.guc_tenant_var
                                && (text_eq c.guc_admin_var o.guc_admin_var
                                    && text_eq c.tenant_pk_type o.tenant_pk_type))))))))

-- The table of a model that is found; a `LookupError` is no `ValueError`.
abbrev pub table_of : Option Model → Outcome Text
table_of none = raised exception
table_of (some model) = returned model.db_table

-- `RLSM2MConstraint._resolve_table`
unfoldable pub resolve_table : Apps → Text → Outcome Text
resolve_table apps model_path = table_of (apps model_path)

-- `RLSM2MConstraint._build_subquery_clause`
unfoldable pub build_subquery_clause : Apps → M2mConstraint → Outcome Text
unfolding resolve_table
build_subquery_clause apps c = do
  from_table ← resolve_table apps c.from_model
  to_table ← resolve_table apps c.to_model
  returned (
      build_m2m_conditions c.from_fk from_table c.from_tenant_fk c.to_fk to_table c.to_tenant_fk
        c.guc_tenant_var c.tenant_pk_type)

-- `RLSM2MConstraint.create_sql`
unfoldable pub m2m_create_sql : Apps → M2mConstraint → Model → Outcome Text
unfolding build_subquery_clause
m2m_create_sql apps c model = do
  subquery_clause ← build_subquery_clause apps c
  returned (build_m2m_create_sql model.db_table (bool_flag_sql c.guc_admin_var) subquery_clause)

-- `RLSM2MConstraint.remove_sql`
unfoldable pub m2m_remove_sql : Model → Text
m2m_remove_sql model = build_m2m_drop_sql model.db_table
