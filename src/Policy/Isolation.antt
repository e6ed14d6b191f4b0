-- ===== src/Policy/Isolation.antt =====
-- What the policies keep apart: tenants, and the rows of many-to-many tables.
use django_rls_tenants.Base.Core.{
  ◌≡◌, ◌∙◌, ap, sym, refl, Bool, true, false, ◌&&◌, ◌||◌, Option, none, some, List, [], ◌∷◌, ◌++◌,
  arith,
}
use django_rls_tenants.Base.Text.{Text, codes}
use django_rls_tenants.Policy.Expr.{
  Expr, case_true, Val, failed, boolean, key, Row, Settings, passes, is_failed, without_empty,
  and_val, setting_val, Postgres, cast_val, any_row, exists_val, PostgresLaws,
}
use django_rls_tenants.Policy.Trees.{flag_expr, tenant_value_expr, side_expr, m2m_expr, and_space}
use django_rls_tenants.Policy.Meaning.{
  flag_on, key_of, tenant_key, flag-IsTruth, passes-flag, passes-case_val, tenant_value,
}

Option-some : {A : Type 0} (a b : A) → some a ≡ some b → a ≡ b
Option-some a b e = ap (λ (o : Option _). elim o [ none ↦ a | some x ↦ x ]) e

and_true : (b : Bool) → (b && true) ≡ b
and_true true = refl
and_true false = refl

and_val-boolean :
    {K : Type 0} (a b : Bool) → and_val {K = K} (boolean a) (boolean b) ≡ boolean (a && b)
and_val-boolean true b = refl
and_val-boolean false b = refl

module _ (p : Postgres) (laws : PostgresLaws p) where
  -- A row of the side's table has the foreign key's `id`, and the session's tenant.
  unfoldable pub side_row : Val p.Key → Text → Option p.Key → List (Row p.Key) → Bool
  side_row id tenant_fk none rows = false
  side_row id tenant_fk (some k) rows = any_row p.same id (tenant_fk ++ codes "_id") k rows

  -- A side without a tenant holds every row.
  unfoldable pub side_holds : Text → Text → Option Text → Option p.Key → Settings → Row p.Key → Bool
  unfolding side_row
  side_holds table fk none tenant s r = true
  side_holds table fk (some tenant_fk) tenant s r =
      side_row (r fk) tenant_fk tenant (p.rows table s)

  side_row-value :
      (tenant_fk : Text) (o : Option p.Key) (v : Val p.Key) (rows : List (Row p.Key))
      → is_failed (elim o as (λ _. Val p.Key) [ none ↦ failed | some k ↦ key k ]) ≡ false
      → exists_val p.same v
          (tenant_fk ++ codes "_id")
          (elim o as (λ _. Val p.Key) [ none ↦ failed | some k ↦ key k ])
          rows
        ≡ boolean (side_row v tenant_fk o rows)
  unfolding side_row
  side_row-value tenant_fk none v rows h = ground arith
  side_row-value tenant_fk (some k) v rows h = refl

  -- `EXISTS` with the tenant's value, where that did not fail.
  exists-side_row :
      (type tenant_fk : Text) (o : Option Text) (v : Val p.Key) (rows : List (Row p.Key))
      → is_failed (cast_val p.cast type (without_empty (setting_val o))) ≡ false
      → exists_val p.same v
          (tenant_fk ++ codes "_id")
          (cast_val p.cast type (without_empty (setting_val o)))
          rows
        ≡ boolean (side_row v tenant_fk (key_of p laws type o) rows)
  unfolding side_row
  exists-side_row type tenant_fk none v rows h = refl
  exists-side_row type tenant_fk (some []) v rows h = refl
  exists-side_row type tenant_fk (some (c ∷ t)) v rows h =
      side_row-value tenant_fk (p.cast type (c ∷ t)) v rows h

  -- The table of a protected side has the columns that its condition names, and none with the
  -- name of the foreign key.
  abbrev pub AreColumns : Text → Text → Option Text → Type 0
  AreColumns table fk none = Unit {0}
  AreColumns table fk (some tenant_fk) =
      (p.has_column table (codes "id") ≡ true)
      × (p.has_column table (tenant_fk ++ codes "_id") ≡ true)
      × (p.has_column table fk ≡ false)

  side_value :
      (table fk tenant_fk g type : Text) (s : Settings) (r : Row p.Key)
      → AreColumns table fk (some tenant_fk)
      → is_failed (p.eval (tenant_value_expr g type) s r) ≡ false
      → p.eval (side_expr table fk tenant_fk g type) s r
        ≡ boolean (side_row (r fk) tenant_fk (tenant_key p laws g type s) (p.rows table s))
  side_value table fk tenant_fk g type s r (i, t, f) h =
      let e = tenant_value p laws g type s r in
      laws.exists_law table fk (tenant_fk ++ codes "_id") g type s r i t f h
      ∙ (λ j. exists_val p.same (r fk) (tenant_fk ++ codes "_id") (e j) (p.rows table s))
      ∙ exists-side_row type tenant_fk (s g) (r fk) (p.rows table s) (ap is_failed (sym e) ∙ h)

  m2m_value :
      (from_fk from_table to_fk to_table g type : Text) (from_tenant_fk to_tenant_fk : Option Text)
      → (e : Expr) (s : Settings) (r : Row p.Key)
      → m2m_expr from_fk from_table to_fk to_table g type from_tenant_fk to_tenant_fk ≡ some e
      → AreColumns from_table from_fk from_tenant_fk
      → AreColumns to_table to_fk to_tenant_fk
      → is_failed (p.eval (tenant_value_expr g type) s r) ≡ false
      → p.eval e s r
        ≡ boolean (
            side_holds from_table from_fk from_tenant_fk (tenant_key p laws g type s) s r
            && side_holds to_table to_fk to_tenant_fk (tenant_key p laws g type s) s r)
  unfolding side_holds
  m2m_value from_fk from_table to_fk to_table g type none none e s r q m n h = ground arith
  m2m_value from_fk from_table to_fk to_table g type (some f) none e s r q m n h =
      rw (sym (Option-some _ _ q))
        ((side_value from_table from_fk f g type s r m h) ∙ ap boolean (sym (and_true _)))
  m2m_value from_fk from_table to_fk to_table g type none (some t) e s r q m n h =
      rw (sym (Option-some _ _ q)) (side_value to_table to_fk t g type s r n h)
  m2m_value from_fk from_table to_fk to_table g type (some f) (some t) e s r q m n h =
      let a = side_value from_table from_fk f g type s r m h in
      let b = side_value to_table to_fk t g type s r n h in
      rw (sym (Option-some _ _ q)) (
        laws.and_law and_space _ _ s r (ap is_failed a) (ap is_failed b)
        ∙ (λ i. and_val (a i) (b i))
        ∙ and_val-boolean _ _)

  -- The rows of a many-to-many table.
  pub passes-m2m :
      (from_fk from_table to_fk to_table g_tenant g_admin type : Text)
      → (from_tenant_fk to_tenant_fk : Option Text) (e : Expr) (s : Settings) (r : Row p.Key)
      → m2m_expr from_fk from_table to_fk to_table g_tenant type from_tenant_fk to_tenant_fk
        ≡ some e
      → AreColumns from_table from_fk from_tenant_fk
      → AreColumns to_table to_fk to_tenant_fk
      → is_failed (p.eval (tenant_value_expr g_tenant type) s r) ≡ false
      → passes (p.eval (case_true (flag_expr g_admin) e) s r) ≡ (
          flag_on g_admin s
          || (side_holds from_table from_fk from_tenant_fk (tenant_key p laws g_tenant type s) s r
              && side_holds to_table to_fk to_tenant_fk (tenant_key p laws g_tenant type s) s r))
  passes-m2m from_fk from_table to_fk to_table g_tenant g_admin type from_tenant_fk to_tenant_fk e s
        r q m n h =
      ap passes (laws.case_law (flag_expr g_admin) e s r)
      ∙ passes-case_val _ _ (flag-IsTruth p laws g_admin s r)
      ∙ (λ i.
          passes-flag p laws g_admin s r i
          || passes (
              m2m_value from_fk from_table to_fk to_table g_tenant type from_tenant_fk to_tenant_fk
                e s r q m n h i))
