-- ===== src/Policy/Example.antt =====
-- A PostgreSQL that the laws hold of, with one table.
use django_rls_tenants.Base.Core.{
  refl, Bool, true, ◌&&◌, ◌||◌, Option, none, some, List, [], ◌∷◌, if◌then◌else◌, leb,
}
use django_rls_tenants.Base.Text.{Text, codes, is_empty, text_eq, text_eq_iff}
use django_rls_tenants.Policy.Expr.{
  Expr, column, setting, empty_as_null, cast_to, equals, is_true_text, spaced_or, spaced_and,
  case_true, in_parentheses, exists_row, Val, null, key, Row, Settings, without_empty, is_true_val,
  or_val, and_val, case_val, setting_val, Postgres, cast_val, equal_val, exists_val, PostgresLaws,
}

unfoldable all_digits : Text → Bool
all_digits [] = true
all_digits (c ∷ s) = (leb b'0' c && leb c b'9') && all_digits s

-- Keys are texts of digits.
unfoldable pub as_key : Text → Option Text
unfolding all_digits
as_key t = if is_empty t then none else if all_digits t then some t else none

-- A project of tenant 7, with `id` 1.
abbrev pub project : Row Text
project c =
    if text_eq c (codes "id")
    then key (codes "1")
    else if text_eq c (codes "tenant_id")
    then key (codes "7")
    else null

abbrev pub tables : Text → List (Row Text)
tables t = if text_eq t (codes "app_project") then project ∷ [] else []

-- Every table has these columns.
abbrev pub has_column : Text → Text → Bool
has_column table c = text_eq c (codes "id") || text_eq c (codes "tenant_id")

abbrev cast_key : Text → Text → Option Text
cast_key type t = as_key t

unfoldable pub eval : Expr → Settings → Row Text → Val Text
eval (column c) s r = r c
eval (setting g) s r = setting_val (s g)
eval (empty_as_null e) s r = without_empty (eval e s r)
eval (cast_to e type) s r = cast_val cast_key type (eval e s r)
eval (equals a b) s r = equal_val text_eq (eval a s r) (eval b s r)
eval (is_true_text e) s r = is_true_val (eval e s r)
eval (spaced_or space a b) s r = or_val (eval a s r) (eval b s r)
eval (spaced_and space a b) s r = and_val (eval a s r) (eval b s r)
eval (case_true c e) s r = case_val (eval c s r) (eval e s r)
eval (in_parentheses e) s r = eval e s r
eval (exists_row table fk tenant_column e) s r =
    exists_val text_eq (r fk) tenant_column (eval e s r) (tables table)

abbrev pub postgres : Postgres
postgres = record {
  Key = Text;
  same = text_eq;
  cast = cast_key;
  rows = λ table s. tables table;
  has_column = has_column;
  eval = eval;
}

pub postgres-PostgresLaws : PostgresLaws postgres
unfolding eval
postgres-PostgresLaws = record {
  same_law = λ a b. (text_eq_iff a b).0;
  column_law = λ c s r. refl;
  setting_law = λ g s r. refl;
  empty_law = λ e s r. refl;
  cast_law = λ e type s r. refl;
  equals_law = λ a b s r. refl;
  is_true_law = λ e s r. refl;
  or_law = λ space a b s r h k. refl;
  and_law = λ space a b s r h k. refl;
  case_law = λ c e s r. refl;
  parentheses_law = λ e s r. refl;
  exists_law = λ table fk tenant_column g type s r i t f h. refl;
}
