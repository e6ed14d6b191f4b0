-- ===== src/Policy/Operation.antt =====
-- The migration operations of django_rls_tenants/operations.py.
pub mod Agrees
pub mod RoundTrip
pub mod Tests
use django_rls_tenants.Base.Core.{
  Bool, true, false, not, ◌&&◌, ◌||◌, Option, none, some, List, [], ◌∷◌, ◌++◌, ◌==◌, if◌then◌else◌,
}
use django_rls_tenants.Base.Text.{Text, codes, is_empty, text_eq, ascii_lower}
use django_rls_tenants.Base.Outcome.{Outcome, returned, raised, value_error, ◌>>=◌, ◌>>◌}
use django_rls_tenants.Policy.Names.{
  validate_field_name, validate_pk_type, validate_guc_name_for_ddl, validate_flags, if_given,
}
use django_rls_tenants.Policy.Fragment.{tenant_value_sql}
use django_rls_tenants.Policy.Create.{build_policy_create_sql, build_sharing_policy_create_sql}
use django_rls_tenants.Policy.Safe.{PolicyConf}
use django_rls_tenants.Policy.Model.{Target, resolved, unresolved, ForeignKey, Model, Apps}
use django_rls_tenants.Policy.Predicates.{
  Predicate, Given, any_char, is_unsafe_char, as_foreign_key, or_empty, validated_predicates,
  predicates_sql,
}
use django_rls_tenants.Policy.Constraint.{
  or_default, unless_default, unless_empty, given_again, drop_sql,
}

pub record AddRlsPolicy : Type 0 where
  pub model_name : Text
  pub field : Text
  pub app_label : Option Text
  pub tenant_pk_type : Option Text
  pub guc_tenant_var : Option Text
  pub guc_admin_var : Option Text
  pub extra_bypass_flags : List Text
  pub extra_predicates : List Predicate

-- The arguments. For all but `field` and `model_name`, `None` is the same as none given.
pub record AddRlsKwargs : Type 0 where
  pub model_name : Text
  pub field : Option Text
  pub app_label : Option Text
  pub tenant_pk_type : Option Text
  pub guc_tenant_var : Option Text
  pub guc_admin_var : Option Text
  pub extra_bypass_flags : Option (List Text)
  pub extra_predicates : Option (List Given)

abbrev pub default_field : Text
default_field = codes "tenant"

-- The checks of the constructor.
unfoldable pub check_add :
    Text
    → Text
    → Option Text
    → Option Text
    → Option Text
    → Option Text
    → List Text
    → Outcome (Unit {0})
unfolding validate_field_name validate_pk_type validate_guc_name_for_ddl validate_flags
check_add model_name field app_label tenant_pk_type guc_tenant_var guc_admin_var
      extra_bypass_flags =
    do
      validate_field_name model_name
      validate_field_name field
      if_given validate_field_name app_label
      if_given validate_pk_type tenant_pk_type
      if_given validate_guc_name_for_ddl guc_tenant_var
      if_given validate_guc_name_for_ddl guc_admin_var
      validate_flags extra_bypass_flags

-- `AddRLSPolicy.__init__`
unfoldable pub init_add :
    Text
    → Text
    → Option Text
    → Option Text
    → Option Text
    → Option Text
    → List Text
    → Option (List Given)
    → Outcome AddRlsPolicy
unfolding check_add validated_predicates
init_add model_name field app_label tenant_pk_type guc_tenant_var guc_admin_var extra_bypass_flags
      extra_predicates =
    do
      check_add model_name field app_label tenant_pk_type guc_tenant_var guc_admin_var
          extra_bypass_flags
      predicates ← validated_predicates extra_predicates
      returned (record {
        model_name = model_name;
        field = field;
        app_label = app_label;
        tenant_pk_type = tenant_pk_type;
        guc_tenant_var = guc_tenant_var;
        guc_admin_var = guc_admin_var;
        extra_bypass_flags = extra_bypass_flags;
        extra_predicates = predicates;
      })

-- `AddRLSPolicy(**kwargs)`
unfoldable pub new_add_rls_policy : AddRlsKwargs → Outcome AddRlsPolicy
unfolding init_add
new_add_rls_policy kwargs =
    init_add kwargs.model_name (or_default default_field kwargs.field) kwargs.app_label
      kwargs.tenant_pk_type kwargs.guc_tenant_var kwargs.guc_admin_var
      (or_empty kwargs.extra_bypass_flags) kwargs.extra_predicates

-- The keyword arguments of `AddRLSPolicy.deconstruct`
unfoldable pub deconstruct_add : AddRlsPolicy → AddRlsKwargs
unfolding given_again
deconstruct_add op = record {
  model_name = op.model_name;
  field = unless_default default_field op.field;
  app_label = op.app_label;
  tenant_pk_type = op.tenant_pk_type;
  guc_tenant_var = op.guc_tenant_var;
  guc_admin_var = op.guc_admin_var;
  extra_bypass_flags = unless_empty op.extra_bypass_flags;
  extra_predicates = unless_empty (given_again op.extra_predicates);
}

-- `state.apps.get_model(app_label, model_name)`; `none` for a LookupError.
abbrev pub StateApps : Type 0
StateApps = Text → Text → Option Model

-- A model that is there and has a table of its own.
abbrev pub concrete : Option Model → Outcome Model
concrete none = raised value_error
concrete (some model) = if model.is_proxy then raised value_error else returned model

-- `text or default`, which is the default for the empty text too.
abbrev pub or_else : Option Text → Text → Text
or_else none default = default
or_else (some t) default = if is_empty t then default else t

-- `AddRLSPolicy._model`
unfoldable pub model_of : AddRlsPolicy → Text → StateApps → Outcome Model
model_of op app_label apps = concrete (apps (or_else op.app_label app_label) op.model_name)

-- `AddRLSPolicy._applies_to`; the parameter is `allow_migrate_model` of the alias.
unfoldable pub applies_to : (Model → Bool) → Model → Bool
applies_to allow_migrate_model model = allow_migrate_model model && not model.has_rls_constraint

-- `AddRLSPolicy._table`
unfoldable pub policy_table : Model → Outcome Text
unfolding any_char
policy_table model =
    if any_char is_unsafe_char model.db_table then raised value_error else returned model.db_table

-- The label of a target, in lower case if it is resolved.
abbrev pub target_label : Target → Text
target_label (resolved label_lower concrete_label) = label_lower
target_label (unresolved name) = name

-- `AddRLSPolicy._check_target`
unfoldable pub check_tenant_target : PolicyConf → Target → Outcome (Unit {0})
unfolding ascii_lower
check_tenant_target conf target =
    if text_eq (ascii_lower (target_label target)) (ascii_lower conf.tenant_model)
    then returned tt
    else raised value_error

-- A column that PostgreSQL would fold, or that is not `<field>_id`, is quoted.
unfoldable pub column_text : Text → Text → Text
unfolding ascii_lower
column_text field column =
    if text_eq column (field ++ codes "_id") && text_eq column (ascii_lower column)
    then column
    else codes "\"" ++ (column ++ codes "\"")

-- `AddRLSPolicy._column`
unfoldable pub policy_column : PolicyConf → AddRlsPolicy → Model → Outcome Text
unfolding check_tenant_target validate_field_name column_text
policy_column conf op model = do
  key ← as_foreign_key (model.get_field op.field)
  check_tenant_target conf key.related_model
  validate_field_name key.column
  returned (column_text op.field key.column)

-- What `_policy_options` returns.
pub record PolicyOptions : Type 0 where
  pub guc_tenant_var : Text
  pub guc_admin_var : Text
  pub tenant_pk_type : Text

-- `AddRLSPolicy._policy_options`
unfoldable pub policy_options : PolicyConf → AddRlsPolicy → Outcome PolicyOptions
unfolding validate_guc_name_for_ddl validate_pk_type
policy_options conf op = do
  validate_guc_name_for_ddl (or_else op.guc_tenant_var conf.guc_current_tenant)
  validate_guc_name_for_ddl (or_else op.guc_admin_var conf.guc_is_admin)
  validate_pk_type (or_else op.tenant_pk_type conf.tenant_pk_type)
  returned (record {
    guc_tenant_var = or_else op.guc_tenant_var conf.guc_current_tenant;
    guc_admin_var = or_else op.guc_admin_var conf.guc_is_admin;
    tenant_pk_type = or_else op.tenant_pk_type conf.tenant_pk_type;
  })

-- `if self.extra_predicates: sql += ...`
unfoldable pub add_sharing :
    Apps → Model → PolicyOptions → Text → Text → List Predicate → Outcome Text
unfolding predicates_sql build_sharing_policy_create_sql
add_sharing apps model options table sql [] = returned sql
add_sharing apps model options table sql (p ∷ ps) = do
  predicates ←
      predicates_sql apps model (tenant_value_sql options.guc_tenant_var options.tenant_pk_type)
        (p ∷ ps)
  more ← build_sharing_policy_create_sql table predicates
  returned (sql ++ more)

-- The SQL of `database_forwards`, for a model that the operation applies to.
unfoldable pub forwards_sql : Apps → PolicyConf → AddRlsPolicy → Model → Outcome Text
unfolding policy_options policy_table policy_column add_sharing
forwards_sql apps conf op model = do
  options ← policy_options conf op
  table ← policy_table model
  column ← policy_column conf op model
  add_sharing apps model options table
      (build_policy_create_sql table column options.guc_tenant_var options.guc_admin_var
        options.tenant_pk_type op.extra_bypass_flags)
      op.extra_predicates

-- What the editor is given to execute: a text, if anything.
abbrev pub executed : Outcome Text → Outcome (Option Text)
executed sql = sql >>= λ text. returned (some text)

-- `AddRLSPolicy.database_forwards`: what `schema_editor.execute` is called with.
unfoldable pub database_forwards :
    Apps → StateApps → (Model → Bool) → PolicyConf → AddRlsPolicy → Text → Outcome (Option Text)
unfolding model_of applies_to forwards_sql
database_forwards apps to_state allow_migrate_model conf op app_label = do
  model ← model_of op app_label to_state
  (if applies_to allow_migrate_model model
      then executed (forwards_sql apps conf op model)
      else returned none)

-- `AddRLSPolicy.database_backwards`
unfoldable pub database_backwards :
    StateApps → (Model → Bool) → AddRlsPolicy → Text → Outcome (Option Text)
unfolding model_of applies_to policy_table
database_backwards to_state allow_migrate_model op app_label = do
  model ← model_of op app_label to_state
  (if applies_to allow_migrate_model model
      then executed (policy_table model >>= λ table. returned (drop_sql table op.extra_predicates))
      else returned none)
