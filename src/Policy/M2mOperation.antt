-- ===== src/Policy/M2mOperation.antt =====
-- `AddM2MRLSPolicy` of django_rls_tenants/operations.py.
use django_rls_tenants.Base.Core.{
  ℕ, Bool, true, false, Option, none, some, List, [], ◌∷◌, ◌==◌, if◌then◌else◌,
}
use django_rls_tenants.Base.Text.{Text}
use django_rls_tenants.Base.Outcome.{Outcome, returned, raised, value_error, ◌>>=◌, ◌>>◌}
use django_rls_tenants.Policy.Names.{
  validate_field_name, validate_model_path, validate_pk_type, validate_guc_name_for_ddl, if_given,
}
use django_rls_tenants.Policy.Fragment.{bool_flag_sql}
use django_rls_tenants.Policy.Create.{
  build_m2m_conditions, build_m2m_create_sql, build_m2m_drop_sql,
}
use django_rls_tenants.Policy.Constraint.{
  or_default, default_tenant_var, default_admin_var, default_pk_type, unless_default,
}
use django_rls_tenants.Policy.M2m.{or_tenant, unless_tenant, table_of}
use django_rls_tenants.Policy.Operation.{StateApps}

pub record AddM2mRlsPolicy : Type 0 where
  pub m2m_table : Text
  pub from_model : Text
  pub to_model : Text
  pub from_fk : Text
  pub to_fk : Text
  pub from_tenant_fk : Option Text
  pub to_tenant_fk : Option Text
  pub guc_tenant_var : Text
  pub guc_admin_var : Text
  pub tenant_pk_type : Text

-- The arguments; `none` for one that is left out, `some none` for `None`.
pub record AddM2mKwargs : Type 0 where
  pub m2m_table : Text
  pub from_model : Text
  pub to_model : Text
  pub from_fk : Text
  pub to_fk : Text
  pub from_tenant_fk : Option (Option Text)
  pub to_tenant_fk : Option (Option Text)
  pub guc_tenant_var : Option Text
  pub guc_admin_var : Option Text
  pub tenant_pk_type : Option Text

-- The checks of the constructor.
unfoldable pub check_add_m2m : AddM2mRlsPolicy → Outcome (Unit {0})
unfolding validate_field_name validate_model_path validate_pk_type validate_guc_name_for_ddl
check_add_m2m op = do
  validate_field_name op.m2m_table
  validate_model_path op.from_model
  validate_model_path op.to_model
  validate_field_name op.from_fk
  validate_field_name op.to_fk
  if_given validate_field_name op.from_tenant_fk
  if_given validate_field_name op.to_tenant_fk
  validate_pk_type op.tenant_pk_type
  validate_guc_name_for_ddl op.guc_tenant_var
  validate_guc_name_for_ddl op.guc_admin_var

-- `AddM2MRLSPolicy.__init__` of an operation's attributes: they are what it was given.
unfoldable pub init_add_m2m : AddM2mRlsPolicy → Outcome AddM2mRlsPolicy
unfolding check_add_m2m
init_add_m2m op = check_add_m2m op >> returned op

-- The operation's attributes, with the defaults of its arguments.
abbrev pub add_m2m_of : AddM2mKwargs → AddM2mRlsPolicy
add_m2m_of kwargs = record {
  m2m_table = kwargs.m2m_table;
  from_model = kwargs.from_model;
  to_model = kwargs.to_model;
  from_fk = kwargs.from_fk;
  to_fk = kwargs.to_fk;
  from_tenant_fk = or_tenant kwargs.from_tenant_fk;
  to_tenant_fk = or_tenant kwargs.to_tenant_fk;
  guc_tenant_var = or_default default_tenant_var kwargs.guc_tenant_var;
  guc_admin_var = or_default default_admin_var kwargs.guc_admin_var;
  tenant_pk_type = or_default default_pk_type kwargs.tenant_pk_type;
}

-- `AddM2MRLSPolicy(**kwargs)`
unfoldable pub new_add_m2m : AddM2mKwargs → Outcome AddM2mRlsPolicy
unfolding init_add_m2m
new_add_m2m kwargs = init_add_m2m (add_m2m_of kwargs)

-- The keyword arguments of `AddM2MRLSPolicy.deconstruct`
unfoldable pub deconstruct_add_m2m : AddM2mRlsPolicy → AddM2mKwargs
deconstruct_add_m2m op = record {
  m2m_table = op.m2m_table;
  from_model = op.from_model;
  to_model = op.to_model;
  from_fk = op.from_fk;
  to_fk = op.to_fk;
  from_tenant_fk = unless_tenant op.from_tenant_fk;
  to_tenant_fk = unless_tenant op.to_tenant_fk;
  guc_tenant_var = unless_default default_tenant_var op.guc_tenant_var;
  guc_admin_var = unless_default default_admin_var op.guc_admin_var;
  tenant_pk_type = unless_default default_pk_type op.tenant_pk_type;
}

-- The part before a separator that was read and the other parts.
abbrev pub more_of : ℕ → List Text → List Text
more_of c [] = (c ∷ []) ∷ []
more_of c (part ∷ parts) = (c ∷ part) ∷ parts

-- `path.split(".")`
unfoldable pub split_dot : Text → List Text
split_dot [] = [] ∷ []
split_dot (c ∷ s) = let parts = split_dot s in if c == b'.' then [] ∷ parts else more_of c parts

-- `app_label, model_name = parts`
abbrev pub two_parts : List Text → Outcome (Text × Text)
two_parts (a ∷ b ∷ []) = returned (a, b)
two_parts _ = raised value_error

-- `AddM2MRLSPolicy._resolve_table`
unfoldable pub state_table : StateApps → Text → Outcome Text
unfolding split_dot
state_table apps model_path = do
  names ← two_parts (split_dot model_path)
  table_of (apps names.0 names.1)

-- The SQL of `database_forwards`.
unfoldable pub m2m_forwards_sql : StateApps → AddM2mRlsPolicy → Outcome Text
unfolding state_table
m2m_forwards_sql apps op = do
  from_table ← state_table apps op.from_model
  to_table ← state_table apps op.to_model
  returned (
      build_m2m_create_sql op.m2m_table (bool_flag_sql op.guc_admin_var) (
        build_m2m_conditions op.from_fk from_table op.from_tenant_fk op.to_fk to_table
          op.to_tenant_fk op.guc_tenant_var op.tenant_pk_type))

-- `AddM2MRLSPolicy.database_forwards`: what `schema_editor.execute` is called with; the first
-- parameter is `router.allow_migrate` of the alias.
unfoldable pub m2m_database_forwards : Bool → StateApps → AddM2mRlsPolicy → Outcome (Option Text)
unfolding m2m_forwards_sql
m2m_database_forwards false apps op = returned none
m2m_database_forwards true apps op = m2m_forwards_sql apps op >>= λ sql. returned (some sql)

-- `AddM2MRLSPolicy.database_backwards`
unfoldable pub m2m_database_backwards : Bool → AddM2mRlsPolicy → Option Text
m2m_database_backwards false op = none
m2m_database_backwards true op = some (build_m2m_drop_sql op.m2m_table)
