-- ===== src/Policy/Safe/Written.antt =====
-- The texts that `safe_tenant_sql` of django_rls_tenants/tenants/sql.py returns.
use mathlib.Core.List.{append_assoc}
use django_rls_tenants.Base.Core.{
  ◌≡◌, ◌∙◌, ap, sym, refl, Bool, true, false, not, ◌&&◌, ◌||◌, Option, none, some, List, [], ◌∷◌,
  ◌++◌, map, if◌then◌else◌,
}
use django_rls_tenants.Base.Text.{Text, codes, text_in}
use django_rls_tenants.Base.Outcome.{Outcome, returned, raised, value_error}
use django_rls_tenants.Rls.Guc.{is_guc_name}
use django_rls_tenants.Policy.Names.{
  also, if_given, validated, is_field_name, allowed_pk_types, validate_field_name,
}
use django_rls_tenants.Policy.Fragment.{bool_flag_sql, tenant_match_sql}
use django_rls_tenants.Policy.Create.{join}
use django_rls_tenants.Policy.Expr.{Expr, print, spaced_or, in_parentheses}
use django_rls_tenants.Policy.Trees.{match_expr, any_flag_expr, print-match, print-any_flag}
use django_rls_tenants.Policy.Safe.{
  PolicyConf, validated_tenant_guc_and_pk_type, qualified, before, flag_conditions, with_bypass,
  with_checked, safe_predicate, safe_tenant_sql,
}

abbrev pub space : Text
space = codes " "

-- The tree of the predicate, with the bypass conditions or without.
unfoldable pub safe_expr : PolicyConf → Text → Option Text → Bool → List Text → Expr
safe_expr conf column table false flags =
    match_expr (qualified table column) conf.guc_current_tenant conf.tenant_pk_type
safe_expr conf column table true flags = in_parentheses (
    spaced_or space
      (match_expr (qualified table column) conf.guc_current_tenant conf.tenant_pk_type)
      (any_flag_expr space conf.guc_is_admin flags))

unfoldable pub all_guc_names : List Text → Bool
all_guc_names [] = true
all_guc_names (g ∷ gs) = is_guc_name g && all_guc_names gs

abbrev pub is_table : Option Text → Bool
is_table none = true
is_table (some t) = is_field_name t

-- The names that the predicate may be made of.
abbrev pub are_names : PolicyConf → Text → Option Text → Bool → List Text → Bool
are_names conf column table include_admin flags =
    is_guc_name conf.guc_current_tenant
    && (text_in conf.tenant_pk_type allowed_pk_types
        && (is_field_name column
            && (is_table table
                && (not include_admin || (is_guc_name conf.guc_is_admin && all_guc_names flags)))))

abbrev pub validated_text : Bool → Text → Outcome Text
validated_text b t = if b then returned t else raised value_error

-- The predicate without bypass conditions.
abbrev match_text : PolicyConf → Text → Option Text → Text
match_text conf column table =
    tenant_match_sql (qualified table column) conf.guc_current_tenant conf.tenant_pk_type

flag_conditions_lem :
    (flags : List Text)
    → flag_conditions flags
      ≡ (if all_guc_names flags then returned (map bool_flag_sql flags) else raised value_error)
unfolding flag_conditions all_guc_names
flag_conditions_lem [] = refl
flag_conditions_lem (g ∷ gs) =
    ap (λ o. also (validated (is_guc_name g)) (before (bool_flag_sql g) o)) (flag_conditions_lem gs)
    ∙ of (is_guc_name g) (all_guc_names gs)
  where
    of :
        (a b : Bool)
        → also (validated a) (
            before
              (bool_flag_sql g)
              (if b then returned (map bool_flag_sql gs) else raised value_error))
          ≡ (if a && b
              then returned (bool_flag_sql g ∷ map bool_flag_sql gs)
              else raised value_error)
    of true true = refl
    of true false = refl
    of false b = refl

print-safe :
    (conf : PolicyConf) (column : Text) (table : Option Text) (flags : List Text)
    → codes "("
        ++ (match_text conf column table
            ++ (codes " OR "
                ++ (join (codes " OR ") (bool_flag_sql conf.guc_is_admin ∷ map bool_flag_sql flags)
                    ++ codes ")")))
      ≡ print (safe_expr conf column table true flags)
unfolding safe_expr print
print-safe conf column table flags = around _ _ ∙ (λ i.
    codes "("
    ++ ((sym (print-match (qualified table column) conf.guc_current_tenant conf.tenant_pk_type) i
          ++ (codes " OR " ++ sym (print-any_flag space conf.guc_is_admin flags) i))
        ++ codes ")"))
  where
    around :
        (m j : Text)
        → codes "(" ++ (m ++ (codes " OR " ++ (j ++ codes ")")))
          ≡ codes "(" ++ ((m ++ (codes " OR " ++ j)) ++ codes ")")
    around m j =
        ap (λ (t : Text). codes "(" ++ t) (sym (append_assoc m (codes " OR " ++ j) (codes ")")))

also-validated_text :
    (a b : Bool) (t : Text) → also (validated a) (validated_text b t) ≡ validated_text (a && b) t
also-validated_text true b t = refl
also-validated_text false b t = refl

also-if_given :
    (table : Option Text) (b : Bool) (t : Text)
    → also (if_given validate_field_name table) (validated_text b t)
      ≡ validated_text (is_table table && b) t
unfolding validate_field_name
also-if_given none b t = refl
also-if_given (some name) b t = also-validated_text (is_field_name name) b t

with_checked-also :
    {A : Type 0} (a b : Bool) (names : Text × Text) (f : Text × Text → Outcome A)
    → with_checked (also (validated a) (also (validated b) (returned names))) f
      ≡ also (validated a) (also (validated b) (f names))
with_checked-also true true names f = refl
with_checked-also true false names f = refl
with_checked-also false b names f = refl

-- The branch with the bypass conditions.
with_bypass-print :
    (conf : PolicyConf) (column : Text) (table : Option Text) (flags : List Text)
    → with_bypass
        (match_text conf column table)
        (before (bool_flag_sql conf.guc_is_admin) (flag_conditions flags))
      ≡ validated_text (all_guc_names flags) (print (safe_expr conf column table true flags))
with_bypass-print conf column table flags =
    (λ i.
      with_bypass (match_text conf column table)
        (before (bool_flag_sql conf.guc_is_admin) (flag_conditions_lem flags i)))
    ∙ of (all_guc_names flags)
    ∙ ap (λ t. validated_text (all_guc_names flags) t) (print-safe conf column table flags)
  where
    of :
        (b : Bool)
        → with_bypass (match_text conf column table) (
            before
              (bool_flag_sql conf.guc_is_admin)
              (if b then returned (map bool_flag_sql flags) else raised value_error))
          ≡ validated_text b (
              codes "("
              ++ (match_text conf column table
                  ++ (codes " OR "
                      ++ (join
                            (codes " OR ")
                            (bool_flag_sql conf.guc_is_admin ∷ map bool_flag_sql flags)
                          ++ codes ")"))))
    of true = refl
    of false = refl

-- The predicate once its own names are checked.
if-print :
    (conf : PolicyConf) (column : Text) (table : Option Text) (include_admin : Bool)
    (flags : List Text)
    → (if not include_admin
        then returned (match_text conf column table)
        else also (validated (is_guc_name conf.guc_is_admin)) (
            with_bypass
              (match_text conf column table)
              (before (bool_flag_sql conf.guc_is_admin) (flag_conditions flags))))
      ≡ validated_text
          (not include_admin || (is_guc_name conf.guc_is_admin && all_guc_names flags))
          (print (safe_expr conf column table include_admin flags))
unfolding safe_expr
if-print conf column table false flags =
    ap (λ t. returned t)
      (sym (print-match (qualified table column) conf.guc_current_tenant conf.tenant_pk_type))
if-print conf column table true flags =
    ap (λ o. also (validated (is_guc_name conf.guc_is_admin)) o)
      (with_bypass-print conf column table flags)
    ∙ also-validated_text (is_guc_name conf.guc_is_admin) (all_guc_names flags) _

-- For all arguments safe_tenant_sql returns the printed form of the tree of its predicate, with the
-- bypass conditions if they are asked for, if all names that it uses are valid, and raises
-- ValueError otherwise; the names of the bypass flags matter only where they are used.
pub safe_tenant_sql-print :
    (conf : PolicyConf) (column : Text) (table : Option Text) (include_admin : Bool)
    (flags : List Text)
    → safe_tenant_sql conf column table include_admin flags
      ≡ validated_text
          (are_names conf column table include_admin flags)
          (print (safe_expr conf column table include_admin flags))
unfolding safe_tenant_sql safe_predicate validated_tenant_guc_and_pk_type
safe_tenant_sql-print conf column table include_admin flags =
    with_checked-also (is_guc_name conf.guc_current_tenant)
      (text_in conf.tenant_pk_type allowed_pk_types) _ _
    ∙ ap
        (λ o. also (validated (is_guc_name conf.guc_current_tenant)) (
          also (validated (text_in conf.tenant_pk_type allowed_pk_types))
            (also (validate_field_name column) (also (if_given validate_field_name table) o))))
        (if-print conf column table include_admin flags)
    ∙ ap
        (λ o. also (validated (is_guc_name conf.guc_current_tenant)) (
          also (validated (text_in conf.tenant_pk_type allowed_pk_types))
            (also (validate_field_name column) o)))
        (also-if_given table _ _)
    ∙ ap
        (λ o.
          also (validated (is_guc_name conf.guc_current_tenant))
            (also (validated (text_in conf.tenant_pk_type allowed_pk_types)) o))
        (also-validated_text (is_field_name column) _ _)
    ∙ ap (λ o. also (validated (is_guc_name conf.guc_current_tenant)) o)
        (also-validated_text (text_in conf.tenant_pk_type allowed_pk_types) _ _)
    ∙ also-validated_text (is_guc_name conf.guc_current_tenant) _ _
