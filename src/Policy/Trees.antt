-- ===== src/Policy/Trees.antt =====
-- The trees of the expressions that django_rls_tenants/rls/policy_sql.py and constraints.py write.
use mathlib.Core.List.{append_assoc}
use django_rls_tenants.Base.Core.{
  ◌≡◌, ◌∙◌, ap, sym, refl, Option, none, some, List, [], ◌∷◌, ◌++◌, map,
}
use django_rls_tenants.Base.Text.{Text, codes}
use django_rls_tenants.Policy.Fragment.{
  scalar_setting, tenant_value_sql, tenant_match_sql, bool_flag_sql,
}
use django_rls_tenants.Policy.Create.{
  join, case_sql, policy_using, policy_check, side_sql, build_m2m_conditions, side_conditions,
  and_line,
}
use django_rls_tenants.Policy.Expr.{
  Expr, print, column, setting, empty_as_null, cast_to, equals, is_true_text, spaced_or, spaced_and,
  case_true, exists_row,
}

abbrev pub flag_expr : Text → Expr
flag_expr g = is_true_text (setting g)

abbrev pub tenant_value_expr : Text → Text → Expr
tenant_value_expr g type = cast_to (empty_as_null (setting g)) type

abbrev pub match_expr : Text → Text → Text → Expr
match_expr col g type = equals (column col) (tenant_value_expr g type)

-- A flag, or one of the others.
unfoldable pub any_flag_expr : Text → Text → List Text → Expr
any_flag_expr space g [] = flag_expr g
any_flag_expr space g (h ∷ flags) = spaced_or space (flag_expr g) (any_flag_expr space h flags)

abbrev pub or_space : Text
or_space = codes "\n                              "

abbrev pub using_expr : Text → Text → Text → Text → List Text → Expr
using_expr col g_tenant g_admin type flags =
    case_true (any_flag_expr or_space g_admin flags) (match_expr col g_tenant type)

abbrev pub check_expr : Text → Text → Text → Text → Expr
check_expr col g_tenant g_admin type = case_true (flag_expr g_admin) (match_expr col g_tenant type)

abbrev pub side_expr : Text → Text → Text → Text → Text → Expr
side_expr table fk tenant_fk g type =
    exists_row table fk (tenant_fk ++ codes "_id") (tenant_value_expr g type)

abbrev pub and_space : Text
and_space = codes "\n                                "

pub print-tenant_value :
    (g type : Text) → print (tenant_value_expr g type) ≡ tenant_value_sql g type
unfolding print tenant_value_sql scalar_setting
print-tenant_value g type = simp append_assoc

print-flag : (g : Text) → print (flag_expr g) ≡ bool_flag_sql g
unfolding print bool_flag_sql scalar_setting
print-flag g = refl

pub print-match : (col g type : Text) → print (match_expr col g type) ≡ tenant_match_sql col g type
unfolding print tenant_match_sql
print-match col g type = ap (λ (v : Text). col ++ (codes " = " ++ v)) (print-tenant_value g type)

pub print-any_flag :
    (space g : Text) (flags : List Text)
    → print (any_flag_expr space g flags)
      ≡ join (space ++ codes "OR ") (bool_flag_sql g ∷ map bool_flag_sql flags)
unfolding any_flag_expr join print
print-any_flag space g [] = print-flag g
print-any_flag space g (h ∷ flags) =
    (λ i. print-flag g i ++ (space ++ (codes "OR " ++ print-any_flag space h flags i)))
    ∙ ap (λ (t : Text). bool_flag_sql g ++ t) (sym (append_assoc space (codes "OR ") _))

print-case :
    (c e : Expr) (bypass match : Text)
    → print c ≡ bypass
    → print e ≡ match
    → print (case_true c e) ≡ case_sql bypass match
unfolding print case_sql
print-case c e bypass match p q = λ i.
    codes "CASE WHEN "
    ++ (p i
        ++ (codes
              "\n                                     THEN true\n                                     ELSE "
            ++ (q i ++ codes "\n                                END")))

-- The USING and the WITH CHECK that the code builds are the printed forms of the expression trees
-- using_expr and check_expr, for all names and any list of extra flags.
pub policy-print :
    (col g_tenant g_admin type : Text) (flags : List Text)
    → (policy_using col g_tenant g_admin type flags
        ≡ print (using_expr col g_tenant g_admin type flags))
      × (policy_check col g_tenant g_admin type ≡ print (check_expr col g_tenant g_admin type))
unfolding policy_using policy_check
policy-print col g_tenant g_admin type flags = (
  sym (
      print-case (any_flag_expr or_space g_admin flags) (match_expr col g_tenant type) _ _
        (print-any_flag or_space g_admin flags) (print-match col g_tenant type)),
  sym (
      print-case (flag_expr g_admin) (match_expr col g_tenant type) _ _ (print-flag g_admin)
        (print-match col g_tenant type)),
)

print-side :
    (table fk tenant_fk g type : Text)
    → print (side_expr table fk tenant_fk g type)
      ≡ side_sql table fk tenant_fk (tenant_value_sql g type)
unfolding print side_sql tenant_value_sql scalar_setting
print-side table fk tenant_fk g type = simp append_assoc

-- The condition of a many-to-many policy: of the side that is protected, or of both.
abbrev pub m2m_expr :
    Text → Text → Text → Text → Text → Text → Option Text → Option Text → Option Expr
m2m_expr from_fk from_table to_fk to_table g type none none = none
m2m_expr from_fk from_table to_fk to_table g type (some f) none =
    some (side_expr from_table from_fk f g type)
m2m_expr from_fk from_table to_fk to_table g type none (some t) =
    some (side_expr to_table to_fk t g type)
m2m_expr from_fk from_table to_fk to_table g type (some f) (some t) = some (
    spaced_and and_space (side_expr from_table from_fk f g type)
      (side_expr to_table to_fk t g type))

-- The text of what is there; no text of nothing.
abbrev pub print_if : Option Expr → Text
print_if none = []
print_if (some e) = print e

-- The condition of a many-to-many policy is the text of its tree; with no protected side it is
-- empty, which is no expression.
pub m2m-print :
    (from_fk from_table to_fk to_table g type : Text) (from_tenant_fk to_tenant_fk : Option Text)
    → build_m2m_conditions from_fk from_table from_tenant_fk to_fk to_table to_tenant_fk g type
      ≡ print_if (m2m_expr from_fk from_table to_fk to_table g type from_tenant_fk to_tenant_fk)
unfolding build_m2m_conditions side_conditions join print
m2m-print from_fk from_table to_fk to_table g type none none = refl
m2m-print from_fk from_table to_fk to_table g type (some f) none =
    sym (print-side from_table from_fk f g type)
m2m-print from_fk from_table to_fk to_table g type none (some t) =
    sym (print-side to_table to_fk t g type)
m2m-print from_fk from_table to_fk to_table g type (some f) (some t) = sym (λ i.
    print-side from_table from_fk f g type i ++ (and_line ++ print-side to_table to_fk t g type i))
