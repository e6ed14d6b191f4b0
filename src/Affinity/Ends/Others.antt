-- ===== src/Affinity/Ends/Others.antt =====
-- `settle_other_aliases` (django_rls_tenants/tenants/affinity.py), alias by alias.
use django_rls_tenants.Base.Core.{
  ◌≡◌, ◌∙◌, sym, refl, Bool, false, Option, some, List, [], ◌∷◌, inl, inr, Bool-cases, Option-cases,
  arith,
}
use django_rls_tenants.Base.Text.{Text, text_eq, text_eq_iff}
use django_rls_tenants.Base.Outcome.{and_then}
use django_rls_tenants.Gucs.{ContextGucs}
use django_rls_tenants.Affinity.Connection.{Config, Driver, World, Ran, Outcome, returned, raised}
use django_rls_tenants.Affinity.Ends.{
  Connections, stored, settle_one, settle_alias, settle_all, settle_other_aliases,
}

text_eq_sym : (s t : Text) → text_eq s t ≡ false → text_eq t s ≡ false
text_eq_sym s t e = elim (Bool-cases (text_eq t s)) [
  | inl b ↦ absurd (ground (arith, e, (text_eq_iff s t).1 (sym ((text_eq_iff t s).0 b))))
  | inr b ↦ b
]

module _ (d : Driver) (connect : World d → Ran d (Unit {0})) (conf : Config)
    (c : Option ContextGucs) (using : Text) (cleared_by : Bool) where
  kept_by_round :
      (alias : Text) (cs : Connections d) (p : Ran d (Unit {0}))
      → text_eq alias using ≡ false
      → (stored d connect alias cs p).1 using ≡ cs using
  kept_by_round alias cs (o, w) e = rw (text_eq_sym alias using e) refl

  kept_by_alias :
      (alias : Text) (cs : Connections d)
      → (settle_alias d connect conf c (some using) cleared_by alias cs).1 using ≡ cs using
  unfolding settle_alias
  kept_by_alias alias cs = elim (Bool-cases (text_eq alias using)) [
    | inl e ↦ rw e refl
    | inr e ↦ elim (Option-cases (cs alias)) [
      | inl n ↦ rw (e, n, settle_alias) refl
      | inr (w, n) ↦
          rw (e, n, settle_alias)
            (kept_by_round alias cs (settle_one d connect conf c (some using) cleared_by w) e)
    ]
  ]

  kept_by_rest :
      (p : Outcome (Unit {0}) × Connections d)
      (rest : Connections d → Outcome (Unit {0}) × Connections d) (cs : Connections d)
      → p.1 using ≡ cs using
      → ((cs' : Connections d) → (rest cs').1 using ≡ cs' using)
      → (and_then p (λ _. rest)).1 using ≡ cs using
  kept_by_rest (returned u, cs') rest cs e keeps = keeps cs' ∙ e
  kept_by_rest (raised x, cs') rest cs e keeps = e

  kept_by_all :
      (aliases : List Text) (cs : Connections d)
      → (settle_all d connect conf c (some using) cleared_by aliases cs).1 using ≡ cs using
  unfolding settle_all
  kept_by_all [] cs = refl
  kept_by_all (alias ∷ aliases) cs =
      kept_by_rest (settle_alias d connect conf c (some using) cleared_by alias cs)
        (settle_all d connect conf c (some using) cleared_by aliases) cs (kept_by_alias alias cs)
        (kept_by_all aliases)

  -- settle_other_aliases, given the alias of the context, leaves the connection of that alias, with
  -- its session and its tracker, as it is, whether it raises or not.
  pub settle_other_aliases-using :
      (cs : Connections d)
      → (settle_other_aliases d connect conf c (some using) cleared_by cs).1 using ≡ cs using
  unfolding settle_other_aliases
  settle_other_aliases-using cs = kept_by_all conf.databases cs
