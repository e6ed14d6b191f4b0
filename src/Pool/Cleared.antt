-- ===== src/Pool/Cleared.antt =====
-- What a connection holds after `reset_rls_gucs` (django_rls_tenants/pool.py).
use django_rls_tenants.Base.Core.{
  ℕ, zero, suc, ◌≡◌, ◌∙◌, ap, sym, refl, Bool, true, false, ◌&&◌, ◌||◌, Option, none, some, List,
  [], ◌∷◌, ◌++◌, inl, inr, if◌then◌else◌, Bool-cases, and_parts, arith,
}
use django_rls_tenants.Base.Text.{Text, codes, length, text_eq, text_eq_iff, text_eq_refl, text_in}
use django_rls_tenants.Base.Outcome.{Error, Outcome, returned, raised, and_then}
use django_rls_tenants.Policy.Create.{join}
use django_rls_tenants.Policy.Safe.{PolicyConf}
use django_rls_tenants.Policy.Constraint.{RlsConstraint}
use django_rls_tenants.Policy.Expr.{Row, Settings, passes, Postgres, PostgresLaws}
use django_rls_tenants.Policy.Trees.{using_expr}
use django_rls_tenants.Policy.Meaning.{any_on, is_tenants, key_of, tenant_key, passes-using}
use django_rls_tenants.Pool.{
  is_custom_guc_name, ModelConstraint, rls, names_of, policy_guc_names, repeated,
  build_clear_gucs_sql, PoolDriver, commit_unless, clear_names, reset_rls_gucs,
}
use django_rls_tenants.Pool.Names.{or_true, IsCacheOf, Has, policy_guc_names-in}

abbrev pub more_calls : ℕ → Text
more_calls zero = []
more_calls (suc n) = codes ", set_config(%s, '', false)" ++ more_calls n

-- The statement that sets each of its parameters, at least one, to the empty text.
abbrev pub clear_statement : ℕ → Text
clear_statement n = codes "SELECT set_config(%s, '', false)" ++ more_calls n

-- What PostgreSQL does with it, and that a commit keeps a session's GUCs.
pub record PoolLaws (d : PoolDriver) : Type 0 where
  pub clear_law :
      (n : Text) (ns : List Text) (s s' : d.Session)
      → d.execute (clear_statement (length ns)) (n ∷ ns) s ≡ (returned tt, s')
      → (g : Text) → d.value s' g ≡ (if text_in g (n ∷ ns) then some [] else d.value s g)
  pub commit_law :
      (s s' : d.Session) → d.commit s ≡ (returned tt, s') → (g : Text) → d.value s' g ≡ d.value s g

calls-join :
    (n : ℕ)
    → join (codes ", ") (repeated (suc n) (codes "set_config(%s, '', false)"))
      ≡ codes "set_config(%s, '', false)" ++ more_calls n
unfolding join repeated
calls-join zero = refl
calls-join (suc n) = ap (λ (t : Text). codes "set_config(%s, '', false), " ++ t) (calls-join n)

build-clear_statement : (n : ℕ) → build_clear_gucs_sql (suc n) ≡ clear_statement n
unfolding build_clear_gucs_sql
build-clear_statement n = ap (λ (t : Text). codes "SELECT " ++ t) (calls-join n)

module _ (d : PoolDriver) (laws : PoolLaws d) where
  raised-returned : {x : Error} → raised x ≡ returned (tt {0}) → ⊥
  raised-returned e = cc

  commit_unless-value :
      (autocommit : Bool) (s s' : d.Session)
      → commit_unless d autocommit s ≡ (returned tt, s')
      → (g : Text) → d.value s' g ≡ d.value s g
  commit_unless-value true s s' h g = ap (λ z. d.value z.1 g) (sym h)
  commit_unless-value false s s' h g = laws.commit_law s s' h g

  -- What `clear_names` leaves.
  clear_names-value :
      (autocommit : Bool) (names : List Text) (s s' : d.Session)
      → clear_names d autocommit names s ≡ (returned tt, s')
      → (g : Text) → d.value s' g ≡ (if text_in g names then some [] else d.value s g)
  unfolding clear_names text_in
  clear_names-value autocommit [] s s' h g = ap (λ z. d.value z.1 g) (sym h)
  clear_names-value autocommit (n ∷ ns) s s' h g =
      of (d.execute (build_clear_gucs_sql (length (n ∷ ns))) (n ∷ ns) s) refl h
    where
      of :
          (o : Outcome (Unit {0}) × d.Session)
          → d.execute (build_clear_gucs_sql (length (n ∷ ns))) (n ∷ ns) s ≡ o
          → and_then o (λ _ z. commit_unless d autocommit z) ≡ (returned tt, s')
          → d.value s' g ≡ (if text_in g (n ∷ ns) then some [] else d.value s g)
      of (returned u, z) e h =
          commit_unless-value autocommit z s' h g
          ∙ laws.clear_law n ns s z
              ((λ i. d.execute (sym (build-clear_statement (length ns)) i) (n ∷ ns) s) ∙ e) g
      of (raised x, z) e h = absurd (raised-returned (ap (λ o. o.0) h))

  any_on-cleared :
      (g : Text) (flags : List Text) (s : Settings)
      → s g ≡ some []
      → ((h : Text) → text_in h flags ≡ true → s h ≡ some [])
      → any_on g flags s ≡ false
  unfolding any_on text_in text_eq
  any_on-cleared g [] s e k =
      ap (λ o. elim o as (λ _. Bool) [ none ↦ false | some t ↦ text_eq t (codes "true") ]) e
  any_on-cleared g (h ∷ flags) s e k =
      (λ i.
        ap (λ o. elim o as (λ _. Bool) [ none ↦ false | some t ↦ text_eq t (codes "true") ]) e i
        || any_on h flags s)
      ∙ any_on-cleared h flags s (k h (λ i. text_eq_refl h i || text_in h flags))
          (λ x m. k x ((λ i. text_eq x h || m i) ∙ or_true _))

  -- A constraint's GUCs are all custom names.
  abbrev pub all_custom : List Text → Bool
  all_custom [] = true
  all_custom (g ∷ gs) = is_custom_guc_name g && all_custom gs

  all_custom-in :
      (g : Text) (gs : List Text)
      → all_custom gs ≡ true
      → text_in g gs ≡ true
      → is_custom_guc_name g ≡ true
  unfolding text_in
  all_custom-in g [] a h = ground arith
  all_custom-in g (x ∷ gs) a h = elim (Bool-cases (text_eq g x)) [
    | inl e ↦ ap is_custom_guc_name ((text_eq_iff g x).0 e) ∙ (and_parts _ _ a).0
    | inr e ↦ all_custom-in g gs (and_parts _ _ a).1 ((λ i. sym e i || text_in g gs) ∙ h)
  ]

  -- On a psycopg connection and a PostgreSQL with the stated laws, if reset_rls_gucs returns, then
  -- for every RLSConstraint of an installed model whose GUC names are all custom (dotted) names,
  -- and with a cache of declared names that is empty or those of the models, no row passes the
  -- USING of the constraint's policy in the session that goes back to the pool.
  pub reset_rls_gucs-hides :
      (p : Postgres) (pg : PostgresLaws p) (conf : PolicyConf) (ready : Bool)
      → (models : List (List ModelConstraint)) (autocommit : Bool) (cache : Option (List Text))
      → (s s' : d.Session) (c : RlsConstraint) (col : Text) (r : Row p.Key) → IsCacheOf models cache
      → Has (rls c) models
      → all_custom (names_of (rls c)) ≡ true
      → (reset_rls_gucs d conf ready models autocommit cache s).0 ≡ (returned tt, s')
      → passes (
          p.eval
            (using_expr col c.guc_tenant_var c.guc_admin_var c.tenant_pk_type c.extra_bypass_flags)
            (d.value s')
            r)
        ≡ false
  unfolding reset_rls_gucs names_of text_in
  reset_rls_gucs-hides p pg conf ready models autocommit cache s s' c col r k has custom h =
      passes-using p pg col c.guc_tenant_var c.guc_admin_var c.tenant_pk_type c.extra_bypass_flags
        (d.value s') r
      ∙ (λ i.
          any_on-cleared c.guc_admin_var c.extra_bypass_flags (d.value s')
            (cleared c.guc_admin_var (
              (λ j.
                text_eq c.guc_admin_var c.guc_tenant_var
                || (text_eq_refl c.guc_admin_var j || text_in c.guc_admin_var c.extra_bypass_flags))
              ∙ or_true _))
            (λ x m. cleared x (
              (λ j. text_eq x c.guc_tenant_var || (text_eq x c.guc_admin_var || m j))
              ∙ (λ j. text_eq x c.guc_tenant_var || or_true (text_eq x c.guc_admin_var) j)
              ∙ or_true _))
            i
          || is_tenants p pg (tenant_key p pg c.guc_tenant_var c.tenant_pk_type (d.value s'))
              (r col))
      ∙ ap (λ o. is_tenants p pg (key_of p pg c.tenant_pk_type o) (r col))
          (cleared c.guc_tenant_var (λ j.
            text_eq_refl c.guc_tenant_var j
            || (text_eq c.guc_tenant_var c.guc_admin_var
                || text_in c.guc_tenant_var c.extra_bypass_flags)))
    where
      cleared : (g : Text) → text_in g (names_of (rls c)) ≡ true → d.value s' g ≡ some []
      cleared g m =
          clear_names-value autocommit (policy_guc_names conf ready models cache).0 s s' h g ∙ (λ i.
            if policy_guc_names-in conf ready models cache g (rls c) k has m
              (all_custom-in g (names_of (rls c)) custom m) i
            then some []
            else d.value s g)
