-- ===== src/Policy/Meaning.antt =====
-- What the policies of django_rls_tenants/rls/constraints.py let through.
use django_rls_tenants.Base.Core.{
  ◌≡◌, ◌∙◌, ap, refl, Bool, true, false, ◌||◌, Option, none, some, List, [], ◌∷◌, if◌then◌else◌,
}
use django_rls_tenants.Base.Text.{Text, codes, is_empty, text_eq}
use django_rls_tenants.Policy.Expr.{
  Expr, print, column, setting, empty_as_null, Val, null, failed, boolean, text, key, Row, Settings,
  passes, is_failed, without_empty, is_true_val, or_val, case_val, setting_val, Postgres, cast_val,
  equal_val, is_key, PostgresLaws,
}
use django_rls_tenants.Policy.Create.{policy_using, policy_check}
use django_rls_tenants.Policy.Trees.{
  policy-print, flag_expr, tenant_value_expr, match_expr, any_flag_expr, using_expr, check_expr,
  or_space,
}

-- The flag's GUC holds `true`.
abbrev pub flag_on : Text → Settings → Bool
flag_on g s = elim (s g) [ none ↦ false | some t ↦ text_eq t (codes "true") ]

unfoldable pub any_on : Text → List Text → Settings → Bool
any_on g [] s = flag_on g s
any_on g (h ∷ flags) s = flag_on g s || any_on h flags s

module _ {K : Type 0} where
  -- A Boolean value, or `NULL`.
  abbrev pub IsTruth : Val K → Type 0
  IsTruth (boolean b) = Unit {0}
  IsTruth null = Unit {0}
  IsTruth v = ⊥

  pub IsTruth-is_failed : (v : Val K) → IsTruth v → is_failed v ≡ false
  IsTruth-is_failed (boolean b) h = refl
  IsTruth-is_failed null h = refl
  IsTruth-is_failed failed h = absurd h
  IsTruth-is_failed (text t) h = absurd h
  IsTruth-is_failed (key k) h = absurd h

  pub passes-or_val :
      (a b : Val K) → IsTruth a → IsTruth b → passes (or_val a b) ≡ (passes a || passes b)
  passes-or_val (boolean true) b h k = refl
  passes-or_val (boolean false) b h k = refl
  passes-or_val null (boolean true) h k = refl
  passes-or_val null (boolean false) h k = refl
  passes-or_val null null h k = refl
  passes-or_val null failed h k = absurd k
  passes-or_val null (text t) h k = absurd k
  passes-or_val null (key t) h k = absurd k
  passes-or_val failed b h k = absurd h
  passes-or_val (text t) b h k = absurd h
  passes-or_val (key t) b h k = absurd h

  pub or_val-IsTruth : (a b : Val K) → IsTruth a → IsTruth b → IsTruth (or_val a b)
  or_val-IsTruth (boolean true) b h k = tt
  or_val-IsTruth (boolean false) b h k = k
  or_val-IsTruth null (boolean true) h k = tt
  or_val-IsTruth null (boolean false) h k = tt
  or_val-IsTruth null null h k = tt
  or_val-IsTruth null failed h k = absurd k
  or_val-IsTruth null (text t) h k = absurd k
  or_val-IsTruth null (key t) h k = absurd k
  or_val-IsTruth failed b h k = absurd h
  or_val-IsTruth (text t) b h k = absurd h
  or_val-IsTruth (key t) b h k = absurd h

  pub passes-case_val : (c e : Val K) → IsTruth c → passes (case_val c e) ≡ (passes c || passes e)
  passes-case_val (boolean true) e h = refl
  passes-case_val (boolean false) e h = refl
  passes-case_val null e h = refl
  passes-case_val failed e h = absurd h
  passes-case_val (text t) e h = absurd h
  passes-case_val (key k) e h = absurd h

module _ (p : Postgres) (laws : PostgresLaws p) where
  -- The key of the session's tenant, if there is one.
  abbrev pub key_of : Text → Option Text → Option p.Key
  key_of type none = none
  key_of type (some t) = if is_empty t then none else p.cast type t

  abbrev pub tenant_key : Text → Text → Settings → Option p.Key
  tenant_key g type s = key_of type (s g)

  -- The column holds the session's tenant.
  abbrev pub is_tenants : Option p.Key → Val p.Key → Bool
  is_tenants none v = false
  is_tenants (some k) v = is_key p.same k v

  flag_value :
      (g : Text) (s : Settings) (r : Row p.Key)
      → (p.eval (flag_expr g) s r ≡ is_true_val (setting_val (s g)))
  flag_value g s r = laws.is_true_law (setting g) s r ∙ ap is_true_val (laws.setting_law g s r)

  pub flag-IsTruth : (g : Text) (s : Settings) (r : Row p.Key) → IsTruth (p.eval (flag_expr g) s r)
  flag-IsTruth g s r = rw (flag_value g s r) (of (s g))
    where
      of : (o : Option Text) → IsTruth {K = p.Key} (is_true_val (setting_val o))
      of none = tt
      of (some t) = tt

  pub passes-flag :
      (g : Text) (s : Settings) (r : Row p.Key) → passes (p.eval (flag_expr g) s r) ≡ flag_on g s
  passes-flag g s r = rw (flag_value g s r) (of (s g))
    where
      of :
          (o : Option Text)
          → passes {K = p.Key} (is_true_val (setting_val o))
            ≡ elim o as (λ _. Bool) [ none ↦ false | some t ↦ text_eq t (codes "true") ]
      of none = refl
      of (some t) = refl

  pub any_flag_value :
      (space g : Text) (flags : List Text) (s : Settings) (r : Row p.Key)
      → IsTruth (p.eval (any_flag_expr space g flags) s r)
        × (passes (p.eval (any_flag_expr space g flags) s r) ≡ any_on g flags s)
  unfolding any_flag_expr any_on
  any_flag_value space g [] s r = (flag-IsTruth g s r, passes-flag g s r)
  any_flag_value space g (h ∷ flags) s r =
      let (truth, on) = any_flag_value space h flags s r in
      let first = flag-IsTruth g s r in
      let e =
        laws.or_law space (flag_expr g) (any_flag_expr space h flags) s r
          (IsTruth-is_failed _ first) (IsTruth-is_failed _ truth) in
      rw e (
        or_val-IsTruth _ _ first truth,
        passes-or_val _ _ first truth ∙ (λ i. passes-flag g s r i || on i),
      )

  pub tenant_value :
      (g type : Text) (s : Settings) (r : Row p.Key)
      → p.eval (tenant_value_expr g type) s r
        ≡ cast_val p.cast type (without_empty (setting_val (s g)))
  tenant_value g type s r =
      laws.cast_law (empty_as_null (setting g)) type s r
      ∙ ap (cast_val p.cast type)
          (laws.empty_law (setting g) s r ∙ ap without_empty (laws.setting_law g s r))

  pub passes-match :
      (col g type : Text) (s : Settings) (r : Row p.Key)
      → passes (p.eval (match_expr col g type) s r) ≡ is_tenants (tenant_key g type s) (r col)
  passes-match col g type s r =
      ap passes (
        laws.equals_law (column col) (tenant_value_expr g type) s r
        ∙ (λ i. equal_val p.same (laws.column_law col s r i) (tenant_value g type s r i)))
      ∙ of (r col) (s g)
    where
      cast :
          (v : Val p.Key) (o : Option p.Key)
          → passes
              (equal_val p.same v (elim o as (λ _. Val p.Key) [ none ↦ failed | some k ↦ key k ]))
            ≡ is_tenants o v
      cast (key a) none = refl
      cast (key a) (some k) = refl
      cast null none = refl
      cast null (some k) = refl
      cast failed none = refl
      cast failed (some k) = refl
      cast (boolean b) none = refl
      cast (boolean b) (some k) = refl
      cast (text t) none = refl
      cast (text t) (some k) = refl

      unset : (v : Val p.Key) → passes (equal_val p.same v null) ≡ false
      unset (key a) = refl
      unset null = refl
      unset failed = refl
      unset (boolean b) = refl
      unset (text t) = refl

      of :
          (v : Val p.Key) (o : Option Text)
          → passes (equal_val p.same v (cast_val p.cast type (without_empty (setting_val o))))
            ≡ is_tenants (key_of type o) v
      of v none = unset v
      of v (some []) = unset v
      of v (some (c ∷ t)) = cast v (p.cast type (c ∷ t))

  pub passes-using :
      (col g_tenant g_admin type : Text) (flags : List Text) (s : Settings) (r : Row p.Key)
      → passes (p.eval (using_expr col g_tenant g_admin type flags) s r)
        ≡ (any_on g_admin flags s || is_tenants (tenant_key g_tenant type s) (r col))
  passes-using col g_tenant g_admin type flags s r =
      let (truth, on) = any_flag_value or_space g_admin flags s r in
      ap passes
        (laws.case_law (any_flag_expr or_space g_admin flags) (match_expr col g_tenant type) s r)
      ∙ passes-case_val _ _ truth
      ∙ (λ i. on i || passes-match col g_tenant type s r i)

  pub passes-check :
      (col g_tenant g_admin type : Text) (s : Settings) (r : Row p.Key)
      → passes (p.eval (check_expr col g_tenant g_admin type) s r)
        ≡ (flag_on g_admin s || is_tenants (tenant_key g_tenant type s) (r col))
  passes-check col g_tenant g_admin type s r =
      ap passes (laws.case_law (flag_expr g_admin) (match_expr col g_tenant type) s r)
      ∙ passes-case_val _ _ (flag-IsTruth g_admin s r)
      ∙ (λ i. passes-flag g_admin s r i || passes-match col g_tenant type s r i)

  -- On a PostgreSQL with the stated laws, the USING and the WITH CHECK that the code builds for a
  -- tenant policy are the texts of two expressions such that, in every session, a row passes the
  -- USING exactly if the admin flag or an extra bypass flag is true or the row's tenant column
  -- holds the session's tenant, and passes the WITH CHECK exactly if the admin flag is true or its
  -- tenant column holds the session's tenant: with no flag and no tenant nothing passes, and the
  -- extra flags let no write through.
  pub policy-passes :
      (col g_tenant g_admin type : Text) (flags : List Text)
      → (using check : Expr) × (policy_using col g_tenant g_admin type flags ≡ print using)
        × (policy_check col g_tenant g_admin type ≡ print check)
        × ((s : Settings) (r : Row p.Key)
            → (passes (p.eval using s r)
                ≡ (any_on g_admin flags s || is_tenants (tenant_key g_tenant type s) (r col)))
              × (passes (p.eval check s r)
                  ≡ (flag_on g_admin s || is_tenants (tenant_key g_tenant type s) (r col))))
  policy-passes col g_tenant g_admin type flags =
      let (using, check) = policy-print col g_tenant g_admin type flags in
      (
        using_expr col g_tenant g_admin type flags,
        check_expr col g_tenant g_admin type,
        using,
        check,
        λ s r. (
          passes-using col g_tenant g_admin type flags s r,
          passes-check col g_tenant g_admin type s r,
        ),
      )
