-- ===== src/Policy/Operation/Tests.antt =====
-- The constraints and operations of a tenant app: a task, and the tags of a project.
use django_rls_tenants.Base.Core.{
  ◌≡◌, ◌↔◌, refl, true, false, none, some, [], ◌∷◌, ◌++◌, if◌then◌else◌,
}
use django_rls_tenants.Base.Text.{Text, codes, text_eq, text_in}
use django_rls_tenants.Base.Outcome.{Outcome, returned, raised, value_error}
use django_rls_tenants.Rls.Guc.{is_guc_name}
use django_rls_tenants.Policy.Names.{is_field_name, is_model_path, validate_flags}
use django_rls_tenants.Policy.Create.{build_m2m_conditions, join, sharing_policy_name_problem}
use django_rls_tenants.Policy.Expr.{null, key, Row}
use django_rls_tenants.Policy.Model.{Model, Apps, foreign_key, resolved}
use django_rls_tenants.Policy.Predicates.{tenant_field, raw_predicate, predicate, new_raw_predicate}
use django_rls_tenants.Policy.Constraint.{
  RlsConstraint, RlsKwargs, new_rls_constraint, deconstruct_rls, rls_eq, rls_create_sql,
  statement_text,
}
use django_rls_tenants.Policy.Constraint.RoundTrip.{new_rls_constraint-deconstruct}
use django_rls_tenants.Policy.Constraint.Equal.{rls_eq_iff}
use django_rls_tenants.Policy.M2m.{M2mKwargs, m2m_of, new_m2m_constraint, deconstruct_m2m}
use django_rls_tenants.Policy.M2mOperation.{AddM2mKwargs, add_m2m_of, new_add_m2m}
use django_rls_tenants.Policy.M2m.RoundTrip.{new_m2m_constraint-deconstruct}
use django_rls_tenants.Policy.Operation.{
  AddRlsPolicy, AddRlsKwargs, PolicyOptions, new_add_rls_policy, deconstruct_add, forwards_sql,
}
use django_rls_tenants.Policy.Operation.RoundTrip.{new_add_rls_policy-deconstruct}
use django_rls_tenants.Policy.Operation.Agrees.{constraint_of, forwards_sql-constraint}
use django_rls_tenants.Policy.Dollar.Predicates.{raw, none_made, one_made}
use django_rls_tenants.Policy.Dollar.Bodies.{AreBlocks}
use django_rls_tenants.Policy.Dollar.Executed.{forwards_sql-AreBlocks}
use django_rls_tenants.Policy.Tests.{g_tenant, g_admin, report, conf}

abbrev kwargs : RlsKwargs
kwargs = record {
  name = codes "task_rls";
  field = codes "tenant";
  guc_tenant_var = none;
  guc_admin_var = some (codes "app.admin");
  tenant_pk_type = some (codes "int");
  extra_bypass_flags = some report;
  extra_predicates = some (predicate (tenant_field (codes "owner")) ∷ []);
}

abbrev task_rls : RlsConstraint
task_rls = record {
  name = codes "task_rls";
  field = codes "tenant";
  guc_tenant_var = g_tenant;
  guc_admin_var = codes "app.admin";
  tenant_pk_type = codes "int";
  extra_bypass_flags = report;
  extra_predicates = tenant_field (codes "owner") ∷ [];
}

made_task_rls : new_rls_constraint kwargs ≡ returned task_rls
unfolding new_rls_constraint is_field_name is_guc_name is_model_path text_in
made_task_rls = refl

new_rls_constraint-deconstruct_example :
    new_rls_constraint (deconstruct_rls task_rls) ≡ returned task_rls
new_rls_constraint-deconstruct_example =
    new_rls_constraint-deconstruct kwargs task_rls made_task_rls

rls_eq_iff_example : (rls_eq task_rls task_rls ≡ true) ↔ (task_rls ≡ task_rls)
rls_eq_iff_example = rls_eq_iff task_rls task_rls

abbrev tags_kwargs : M2mKwargs
tags_kwargs = record {
  name = codes "tags_rls";
  from_model = codes "app.Project";
  to_model = codes "app.Tag";
  from_fk = codes "project_id";
  to_fk = codes "tag_id";
  from_tenant_fk = none;
  to_tenant_fk = some none;
  guc_tenant_var = none;
  guc_admin_var = none;
  tenant_pk_type = none;
}

made_tags_rls : new_m2m_constraint tags_kwargs ≡ returned (m2m_of tags_kwargs)
unfolding new_m2m_constraint is_field_name is_guc_name is_model_path text_in
made_tags_rls = refl

new_m2m_constraint-deconstruct_example :
    new_m2m_constraint (deconstruct_m2m (m2m_of tags_kwargs)) ≡ returned (m2m_of tags_kwargs)
new_m2m_constraint-deconstruct_example =
    new_m2m_constraint-deconstruct tags_kwargs (m2m_of tags_kwargs) made_tags_rls

-- A table with a foreign key to the tenant.
abbrev model : Text → Model
model table = record {
  label_lower = codes "app.task";
  db_table = table;
  get_field = λ name. some (
      foreign_key (record {
        related_model = resolved (codes "app.tenant") (codes "app.tenant");
        column = name ++ codes "_id";
        target_column = codes "id";
      }));
  is_proxy = false;
  has_rls_constraint = false;
}

abbrev apps : Apps
apps path =
    if text_eq path (codes "app.Project")
    then some (model (codes "app_project"))
    else some (model (codes "app_tag"))

-- The row of the join table for project 1 and a tag.
abbrev join_row : Row Text
join_row c = if text_eq c (codes "project_id") then key (codes "1") else null

abbrev op_kwargs : AddRlsKwargs
op_kwargs = record {
  model_name = codes "Task";
  field = none;
  app_label = some (codes "app");
  tenant_pk_type = none;
  guc_tenant_var = none;
  guc_admin_var = none;
  extra_bypass_flags = some report;
  extra_predicates = some (predicate (raw_predicate (codes "is_public")) ∷ []);
}

abbrev op : AddRlsPolicy
op = record {
  model_name = codes "Task";
  field = codes "tenant";
  app_label = some (codes "app");
  tenant_pk_type = none;
  guc_tenant_var = none;
  guc_admin_var = none;
  extra_bypass_flags = report;
  extra_predicates = raw_predicate (codes "is_public") ∷ [];
}

made_op : new_add_rls_policy op_kwargs ≡ returned op
unfolding new_add_rls_policy is_field_name is_guc_name is_model_path text_in
made_op = refl

new_add_rls_policy-deconstruct_example : new_add_rls_policy (deconstruct_add op) ≡ returned op
new_add_rls_policy-deconstruct_example = new_add_rls_policy-deconstruct op_kwargs op made_op

abbrev options : PolicyOptions
options = record {
  guc_tenant_var = g_tenant;
  guc_admin_var = g_admin;
  tenant_pk_type = codes "int";
}

abbrev task : Model
task = model (codes "app_task")

forwards_sql-constraint_example :
    forwards_sql apps conf op task
    ≡ statement_text apps (rls_create_sql (constraint_of (codes "task_rls") op options) task)
unfolding forwards_sql is_field_name is_guc_name text_in
forwards_sql-constraint_example =
    forwards_sql-constraint apps conf op task options (codes "task_rls") refl refl refl

abbrev sql_of : Outcome Text → Text
sql_of o = elim o [ returned t ↦ t | raised e ↦ [] ]

forwards_sql-AreBlocks_example :
    AreBlocks (codes "app_task") (sql_of (forwards_sql apps conf op task))
unfolding forwards_sql is_field_name is_guc_name text_in validate_flags new_raw_predicate
    sharing_policy_name_problem
forwards_sql-AreBlocks_example =
    forwards_sql-AreBlocks apps conf op task (sql_of (forwards_sql apps conf op task)) refl
      (one_made (raw refl) none_made) refl

-- A trailing newline is taken for a model path, and not for a field name.
newline_in_path :
    (is_model_path (codes "app.Task\n") ≡ true) × (is_field_name (codes "tenant\n") ≡ false)
unfolding is_model_path is_field_name
newline_in_path = (refl, refl)

-- The operation takes a relation with no protected side, which the constraint refuses.
abbrev no_side : AddM2mKwargs
no_side = record {
  m2m_table = codes "app_project_tags";
  from_model = codes "app.Project";
  to_model = codes "app.Tag";
  from_fk = codes "project_id";
  to_fk = codes "tag_id";
  from_tenant_fk = some none;
  to_tenant_fk = some none;
  guc_tenant_var = none;
  guc_admin_var = none;
  tenant_pk_type = none;
}

no_side_taken :
    (new_add_m2m no_side ≡ returned (add_m2m_of no_side))
    × (new_m2m_constraint (record tags_kwargs { from_tenant_fk = some none }) ≡ raised value_error)
unfolding new_add_m2m new_m2m_constraint is_field_name is_model_path is_guc_name text_in
no_side_taken = (refl, refl)

-- Its condition is empty.
no_side_sql :
    build_m2m_conditions
      (codes "project_id")
      (codes "app_project")
      none
      (codes "tag_id")
      (codes "app_tag")
      none
      g_tenant
      (codes "int")
    ≡ []
unfolding build_m2m_conditions join
no_side_sql = refl
