-- ===== src/Policy/Expr.antt =====
-- The SQL expressions of the policies, as trees: how they are written, and what PostgreSQL makes
-- of them. PostgreSQL is no part of the repository; the laws of `Postgres` are hypotheses, from the
-- manual's pages on logical and comparison operators, conditional expressions, subqueries and
-- `current_setting`.
use django_rls_tenants.Base.Core.{
  ◌≡◌, Bool, true, false, ◌&&◌, ◌||◌, Option, none, some, List, [], ◌∷◌, ◌++◌, if◌then◌else◌,
}
use django_rls_tenants.Base.Text.{Text, codes, is_empty, text_eq}

-- `spaced_or` and `spaced_and` hold the white space before their operator.
pub data Expr : Type 0 where
  column : Text → Expr
  setting : Text → Expr
  empty_as_null : Expr → Expr
  cast_to : Expr → Text → Expr
  equals : Expr → Expr → Expr
  is_true_text : Expr → Expr
  spaced_or spaced_and : Text → Expr → Expr → Expr
  case_true : Expr → Expr → Expr
  in_parentheses : Expr → Expr
  -- a row of the table has this `id` (the column given), and this value of another column
  exists_row : Text → Text → Text → Expr → Expr

-- The text of an expression.
unfoldable pub print : Expr → Text
print (column c) = c
print (setting g) = codes "(SELECT current_setting('" ++ (g ++ codes "', true))")
print (empty_as_null e) = codes "nullif(" ++ (print e ++ codes ", '')")
print (cast_to e type) = print e ++ (codes "::" ++ type)
print (equals a b) = print a ++ (codes " = " ++ print b)
print (is_true_text e) = print e ++ codes " = 'true'"
print (spaced_or space a b) = print a ++ (space ++ (codes "OR " ++ print b))
print (spaced_and space a b) = print a ++ (space ++ (codes "AND " ++ print b))
print (case_true c e) =
    codes "CASE WHEN "
    ++ (print c
        ++ (codes
              "\n                                     THEN true\n                                     ELSE "
            ++ (print e ++ codes "\n                                END")))
print (in_parentheses e) = codes "(" ++ (print e ++ codes ")")
print (exists_row table fk tenant_column value) =
    codes "EXISTS (SELECT 1 FROM \""
    ++ (table
        ++ (codes "\" WHERE id = "
            ++ (fk
                ++ (codes " AND "
                    ++ (tenant_column ++ (codes " = " ++ (print value ++ codes ")")))))))

-- A value of a column or an expression: `key` is one of the tenant key's type.
pub data Val {ℓ} (K : Type ℓ) : Type ℓ where
  null failed : Val K
  boolean : Bool → Val K
  text : Text → Val K
  key : K → Val K

abbrev pub Row : Type 0 → Type 0
Row K = Text → Val K

-- The values of the GUCs; `none` for one that was never set.
abbrev pub Settings : Type 0
Settings = Text → Option Text

module _ {K : Type 0} where
  -- A row passes where the expression is true.
  abbrev pub passes : Val K → Bool
  passes (boolean b) = b
  passes _ = false

  abbrev pub is_failed : Val K → Bool
  is_failed failed = true
  is_failed _ = false

  abbrev pub without_empty : Val K → Val K
  without_empty (text t) = if is_empty t then null else text t
  without_empty v = v

  abbrev pub is_true_val : Val K → Val K
  is_true_val (text t) = boolean (text_eq t (codes "true"))
  is_true_val null = null
  is_true_val _ = failed

  -- Three-valued logic, on values that have not failed.
  abbrev pub or_val : Val K → Val K → Val K
  or_val (boolean true) b = boolean true
  or_val (boolean false) b = b
  or_val a (boolean true) = boolean true
  or_val a b = null

  abbrev pub and_val : Val K → Val K → Val K
  and_val (boolean false) b = boolean false
  and_val (boolean true) b = b
  and_val a (boolean false) = boolean false
  and_val a b = null

  -- `ELSE` is evaluated only where the condition is not true.
  abbrev pub case_val : Val K → Val K → Val K
  case_val (boolean true) e = boolean true
  case_val failed e = failed
  case_val c e = e

  abbrev pub setting_val : Option Text → Val K
  setting_val none = null
  setting_val (some t) = text t

pub record Postgres : Type 1 where
  pub Key : Type 0
  pub same : Key → Key → Bool
  -- the cast of a text to a type, which may fail
  pub cast : Text → Text → Option Key
  -- the rows of a table that a session sees
  pub rows : Text → Settings → List (Row Key)
  -- a table has a column
  pub has_column : Text → Text → Bool
  pub eval : Expr → Settings → Row Key → Val Key

module _ {K : Type 0} (cast : Text → Text → Option K) where
  -- The value of a cast.
  abbrev pub cast_val : Text → Val K → Val K
  cast_val type (text t) = elim (cast type t) [ none ↦ failed | some k ↦ key k ]
  cast_val type null = null
  cast_val type v = failed

module _ {K : Type 0} (same : K → K → Bool) where
  -- `=` of two keys, or of anything and `NULL`.
  abbrev pub equal_val : Val K → Val K → Val K
  equal_val (key a) (key b) = boolean (same a b)
  equal_val failed b = failed
  equal_val a failed = failed
  equal_val null b = null
  equal_val a null = null
  equal_val a b = failed

  -- A key column that holds the key `k`.
  abbrev pub is_key : K → Val K → Bool
  is_key k (key a) = same a k
  is_key k v = false

  -- Some row has `id` equal to the key of `fk`, and the tenant column equal to `k`.
  abbrev pub any_row : Val K → Text → K → List (Row K) → Bool
  any_row (key id) tenant_column k [] = false
  any_row (key id) tenant_column k (r ∷ rows) =
      (is_key id (r (codes "id")) && is_key k (r tenant_column))
      || any_row (key id) tenant_column k rows
  any_row v tenant_column k rows = false

  -- `EXISTS` is true or false.
  abbrev pub exists_val : Val K → Text → Val K → List (Row K) → Val K
  exists_val id tenant_column (key k) rows = boolean (any_row id tenant_column k rows)
  exists_val id tenant_column v rows = boolean false

pub record PostgresLaws (p : Postgres) : Type 0 where
  pub same_law : (a b : p.Key) → p.same a b ≡ true → a ≡ b
  pub column_law : (c : Text) (s : Settings) (r : Row p.Key) → p.eval (column c) s r ≡ r c
  pub setting_law :
      (g : Text) (s : Settings) (r : Row p.Key) → p.eval (setting g) s r ≡ setting_val (s g)
  pub empty_law :
      (e : Expr) (s : Settings) (r : Row p.Key)
      → p.eval (empty_as_null e) s r ≡ without_empty (p.eval e s r)
  pub cast_law :
      (e : Expr) (type : Text) (s : Settings) (r : Row p.Key)
      → p.eval (cast_to e type) s r ≡ cast_val p.cast type (p.eval e s r)
  pub equals_law :
      (a b : Expr) (s : Settings) (r : Row p.Key)
      → p.eval (equals a b) s r ≡ equal_val p.same (p.eval a s r) (p.eval b s r)
  pub is_true_law :
      (e : Expr) (s : Settings) (r : Row p.Key)
      → p.eval (is_true_text e) s r ≡ is_true_val (p.eval e s r)
  -- PostgreSQL may evaluate the operands in any order
  pub or_law :
      (space : Text) (a b : Expr) (s : Settings) (r : Row p.Key)
      → is_failed (p.eval a s r) ≡ false
      → is_failed (p.eval b s r) ≡ false
      → p.eval (spaced_or space a b) s r ≡ or_val (p.eval a s r) (p.eval b s r)
  pub and_law :
      (space : Text) (a b : Expr) (s : Settings) (r : Row p.Key)
      → is_failed (p.eval a s r) ≡ false
      → is_failed (p.eval b s r) ≡ false
      → p.eval (spaced_and space a b) s r ≡ and_val (p.eval a s r) (p.eval b s r)
  pub case_law :
      (c e : Expr) (s : Settings) (r : Row p.Key)
      → p.eval (case_true c e) s r ≡ case_val (p.eval c s r) (p.eval e s r)
  pub parentheses_law :
      (e : Expr) (s : Settings) (r : Row p.Key) → p.eval (in_parentheses e) s r ≡ p.eval e s r
  -- An unqualified name in a subquery is a column of the subquery's table, if that has one of the
  -- name, and of the outer row otherwise; a tenant's value, cast from a setting, has no such name.
  pub exists_law :
      (table fk tenant_column g type : Text) (s : Settings) (r : Row p.Key)
      → p.has_column table (codes "id") ≡ true
      → p.has_column table tenant_column ≡ true
      → p.has_column table fk ≡ false
      → is_failed (p.eval (cast_to (empty_as_null (setting g)) type) s r) ≡ false
      → p.eval (exists_row table fk tenant_column (cast_to (empty_as_null (setting g)) type)) s r
        ≡ exists_val p.same
            (r fk)
            tenant_column
            (p.eval (cast_to (empty_as_null (setting g)) type) s r)
            (p.rows table s)
