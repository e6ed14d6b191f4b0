-- ===== src/Policy/Dollar/Executed.antt =====
-- What `AddRLSPolicy` (django_rls_tenants/operations.py) executes: its `DO` blocks.
use mathlib.Core.Path.{subst}
use django_rls_tenants.Base.Core.{
  ◌≡◌, refl, Bool, true, false, List, [], ◌∷◌, inl, inr, if◌then◌else◌, Bool-cases,
}
use django_rls_tenants.Base.Text.{Text, codes, text_in}
use django_rls_tenants.Base.Outcome.{
  returned, Post, post, post_raised, Post->>=, Post-always, Post-returned,
}
use django_rls_tenants.Rls.Guc.{is_guc_name}
use django_rls_tenants.Policy.Names.{
  is_field_name, allowed_pk_types, validated, validate_field_name, validate_guc_name_for_ddl,
  validate_pk_type, validate_flags,
}
use django_rls_tenants.Policy.Create.{build_policy_create_sql, build_sharing_policy_create_sql}
use django_rls_tenants.Policy.Fragment.{tenant_value_sql}
use django_rls_tenants.Policy.Model.{Model, Apps}
use django_rls_tenants.Policy.Predicates.{any_char, is_unsafe_char, Predicate, predicates_sql}
use django_rls_tenants.Policy.Dollar.Predicates.{AreMade, predicates_sql-NoDollars, unsafe-dollar}
use django_rls_tenants.Policy.Safe.{PolicyConf}
use django_rls_tenants.Policy.Operation.{
  AddRlsPolicy, PolicyOptions, or_else, column_text, policy_table, policy_column, policy_options,
  check_tenant_target, add_sharing, forwards_sql,
}
use django_rls_tenants.Policy.Predicates.{as_foreign_key}
use django_rls_tenants.Policy.Dollar.{
  NoDollar, NoDollar-++, is_guc_name-NoDollar, is_field_name-NoDollar, pk_type-NoDollar, literal,
  tenant_value-NoDollar,
}
use django_rls_tenants.Policy.Dollar.Bodies.{
  AreBlocks, last_block, block_and, isolation_body-NoDollar, sharing-AreBlocks,
}

validated-Post : (b : Bool) → Post (λ _. b ≡ true) (validated b)
validated-Post true = post refl
validated-Post false = post_raised

options-NoDollar :
    (conf : PolicyConf) (op : AddRlsPolicy)
    → Post
        (λ o. NoDollar o.guc_tenant_var × NoDollar o.guc_admin_var × NoDollar o.tenant_pk_type)
        (policy_options conf op)
unfolding policy_options validate_guc_name_for_ddl validate_pk_type
options-NoDollar conf op =
    Post->>= _ (validated-Post (is_guc_name (or_else op.guc_tenant_var conf.guc_current_tenant)))
      λ _ a.
        Post->>= _ (validated-Post (is_guc_name (or_else op.guc_admin_var conf.guc_is_admin)))
          λ _ b.
            Post->>= _
              (validated-Post
                (text_in (or_else op.tenant_pk_type conf.tenant_pk_type) allowed_pk_types))
              λ _ c. post (is_guc_name-NoDollar a, is_guc_name-NoDollar b, pk_type-NoDollar c)

if-NoDollar : (b : Bool) (s t : Text) → NoDollar s → NoDollar t → NoDollar (if b then s else t)
if-NoDollar true s t h k = h
if-NoDollar false s t h k = k

column-NoDollar :
    (conf : PolicyConf) (op : AddRlsPolicy) (model : Model)
    → Post NoDollar (policy_column conf op model)
unfolding policy_column validate_field_name column_text any_char
column-NoDollar conf op model = Post-always (as_foreign_key (model.get_field op.field)) λ key.
    Post-always (check_tenant_target conf key.related_model) λ _.
      Post->>= _ (validated-Post (is_field_name key.column)) λ _ h.
        let c = is_field_name-NoDollar h in
        post (
          if-NoDollar _ key.column _ c
            (NoDollar-++ (literal (codes "\"") refl) (NoDollar-++ c (literal (codes "\"") refl))))

table-NoDollar :
    (model : Model) → Post (λ t. (t ≡ model.db_table) × NoDollar t) (policy_table model)
unfolding policy_table
table-NoDollar model = elim (Bool-cases (any_char is_unsafe_char model.db_table)) [
  | inl e ↦ rw e post_raised
  | inr e ↦ rw e (post (refl, record { absent = unsafe-dollar model.db_table e }))
]

add_sharing-AreBlocks :
    (apps : Apps) (model : Model) (options : PolicyOptions) (table column : Text)
    (flags : List Text)
    → (predicates : List Predicate) → NoDollar table
    → NoDollar column
    → NoDollar options.guc_tenant_var
    → NoDollar options.guc_admin_var
    → NoDollar options.tenant_pk_type
    → validate_flags flags ≡ returned tt
    → AreMade predicates
    → Post (AreBlocks table) (
        add_sharing apps model options table
          (build_policy_create_sql table column options.guc_tenant_var options.guc_admin_var
            options.tenant_pk_type flags)
          predicates)
unfolding add_sharing build_policy_create_sql any_char
add_sharing-AreBlocks apps model options table column flags [] t c g a k h made = post (
    last_block t (NoDollar-++ t (literal (codes "_tenant_isolation_policy") refl))
      (isolation_body-NoDollar table column _ _ _ flags t c g a k h))
add_sharing-AreBlocks apps model options table column flags (p ∷ ps) t c g a k h made =
    Post->>= (predicates_sql apps model _ (p ∷ ps))
      (predicates_sql-NoDollars apps model
        (tenant_value_sql options.guc_tenant_var options.tenant_pk_type) (p ∷ ps)
        (tenant_value-NoDollar g k) made)
      λ sql s.
        Post->>= (build_sharing_policy_create_sql table sql) (sharing-AreBlocks table sql t s)
          λ rest b. post (
            block_and t (NoDollar-++ t (literal (codes "_tenant_isolation_policy") refl))
              (isolation_body-NoDollar table column _ _ _ flags t c g a k h) b)

-- The SQL of the operation, as blocks.
forwards-Post :
    (apps : Apps) (conf : PolicyConf) (op : AddRlsPolicy) (model : Model)
    → validate_flags op.extra_bypass_flags ≡ returned tt
    → AreMade op.extra_predicates
    → Post (AreBlocks model.db_table) (forwards_sql apps conf op model)
unfolding forwards_sql
forwards-Post apps conf op model flags made =
    Post->>= (policy_options conf op) (options-NoDollar conf op) λ options (g, a, k).
      Post->>= (policy_table model) (table-NoDollar model) λ table (same, t).
        Post->>= (policy_column conf op model) (column-NoDollar conf op model) λ column c.
          subst
            (λ z. Post (AreBlocks z) (
              add_sharing apps model options table
                (build_policy_create_sql table column options.guc_tenant_var options.guc_admin_var
                  options.tenant_pk_type op.extra_bypass_flags)
                op.extra_predicates))
            same
            (add_sharing-AreBlocks apps model options table column op.extra_bypass_flags
              op.extra_predicates t c g a k flags made)

-- Where the extra flags passed their validation and every raw predicate is one that its constructor
-- makes, the SQL that AddRLSPolicy returns to execute for a model is one DO block, or two, of the
-- model's table, and neither the table's name nor a policy's name nor a body holds a dollar sign,
-- so that nothing in a body ends its dollar quotes.
pub forwards_sql-AreBlocks :
    (apps : Apps) (conf : PolicyConf) (op : AddRlsPolicy) (model : Model) (sql : Text)
    → validate_flags op.extra_bypass_flags ≡ returned tt
    → AreMade op.extra_predicates
    → forwards_sql apps conf op model ≡ returned sql
    → AreBlocks model.db_table sql
forwards_sql-AreBlocks apps conf op model sql flags made h =
    Post-returned (
      subst (λ o. Post (AreBlocks model.db_table) o) h
        (forwards-Post apps conf op model flags made))
