-- ===== src/Pool/Names.antt =====
-- Which names `_policy_guc_names` (django_rls_tenants/pool.py) holds.
use django_rls_tenants.Base.Core.{
  ◌≡◌, ◌∙◌, ap, sym, refl, Bool, true, false, ◌||◌, Option, none, some, List, [], ◌∷◌, ◌++◌, inl,
  inr, if◌then◌else◌, Bool-cases,
}
use django_rls_tenants.Base.Text.{Text, text_eq, text_eq_iff, text_in}
use django_rls_tenants.Policy.Safe.{PolicyConf}
use django_rls_tenants.Pool.{
  is_custom_guc_name, without, fromkeys, ModelConstraint, names_of, names_of_model, names_of_models,
  declared_policy_guc_names, declared_cached, declared_names, only_custom, policy_guc_names,
}

pub or_true : (b : Bool) → (b || true) ≡ true
or_true true = refl
or_true false = refl

text_in-++ : (g : Text) (xs ys : List Text) → text_in g (xs ++ ys) ≡ (text_in g xs || text_in g ys)
unfolding text_in
text_in-++ g [] ys = refl
text_in-++ g (x ∷ xs) ys = of (text_eq g x) (text_in-++ g xs ys)
  where
    of :
        (b : Bool)
        → text_in g (xs ++ ys) ≡ (text_in g xs || text_in g ys)
        → (b || text_in g (xs ++ ys)) ≡ ((b || text_in g xs) || text_in g ys)
    of true e = refl
    of false e = e

-- Another name stays.
text_in-without :
    (g n : Text) (ns : List Text) → text_eq g n ≡ false → text_in g (without n ns) ≡ text_in g ns
unfolding text_in without
text_in-without g n [] h = refl
text_in-without g n (m ∷ ns) h = elim (Bool-cases (text_eq m n)) [
  | inl e ↦
      (λ i. text_in g (if e i then without n ns else m ∷ without n ns))
      ∙ text_in-without g n ns h
      ∙ (λ i. sym (ap (λ x. text_eq g x) ((text_eq_iff m n).0 e) ∙ h) i || text_in g ns)
  | inr e ↦
      (λ i. text_in g (if e i then without n ns else m ∷ without n ns))
      ∙ (λ i. text_eq g m || text_in-without g n ns h i)
]

text_in-fromkeys : (g : Text) (ns : List Text) → text_in g (fromkeys ns) ≡ text_in g ns
unfolding text_in fromkeys
text_in-fromkeys g [] = refl
text_in-fromkeys g (n ∷ ns) = elim (Bool-cases (text_eq g n)) [
  | inl e ↦ (λ i. e i || text_in g (without n (fromkeys ns))) ∙ (λ i. sym e i || text_in g ns)
  | inr e ↦ (λ i. text_eq g n || (text_in-without g n (fromkeys ns) e ∙ text_in-fromkeys g ns) i)
]

text_in-only_custom :
    (g : Text) (ns : List Text)
    → is_custom_guc_name g ≡ true
    → text_in g ns ≡ true
    → text_in g (only_custom ns) ≡ true
unfolding text_in only_custom
text_in-only_custom g [] c h = h
text_in-only_custom g (n ∷ ns) c h = elim (Bool-cases (text_eq g n)) [
  | inl e ↦
      let k : is_custom_guc_name n ≡ true =
        ap is_custom_guc_name (sym ((text_eq_iff g n).0 e)) ∙ c in
      (λ i. text_in g (if k i then n ∷ only_custom ns else only_custom ns))
      ∙ (λ i. e i || text_in g (only_custom ns))
  | inr e ↦
      kept (is_custom_guc_name n) e
        (text_in-only_custom g ns c ((λ i. sym e i || text_in g ns) ∙ h))
]
  where
    kept :
        (b : Bool)
        → text_eq g n ≡ false
        → text_in g (only_custom ns) ≡ true
        → text_in g (if b then n ∷ only_custom ns else only_custom ns) ≡ true
    kept true e h = (λ i. e i || text_in g (only_custom ns)) ∙ h
    kept false e h = h

-- A cache that is empty, or holds the names of the models.
abbrev pub IsCacheOf : List (List ModelConstraint) → Option (List Text) → Type 0
IsCacheOf models none = Unit {0}
IsCacheOf models (some names) = names ≡ declared_policy_guc_names models

declared_names-declared :
    (ready : Bool) (models : List (List ModelConstraint)) (cache : Option (List Text))
    → IsCacheOf models cache
    → (declared_names ready models cache).0 ≡ declared_policy_guc_names models
unfolding declared_names declared_cached
declared_names-declared false models cache h = refl
declared_names-declared true models none h = refl
declared_names-declared true models (some names) h = h

-- A constraint of a model, and of one of the models.
pub data InModel (c : ModelConstraint) : List ModelConstraint → Type 0 where
  first : {cs : List ModelConstraint} → InModel c (c ∷ cs)
  after : {b : ModelConstraint} {cs : List ModelConstraint} → InModel c cs → InModel c (b ∷ cs)

pub data Has (c : ModelConstraint) : List (List ModelConstraint) → Type 0 where
  in_model :
      {m : List ModelConstraint} {ms : List (List ModelConstraint)} → InModel c m → Has c (m ∷ ms)
  in_models :
      {m : List ModelConstraint} {ms : List (List ModelConstraint)} → Has c ms → Has c (m ∷ ms)

names_of_model-in :
    (g : Text) (c : ModelConstraint) (cs : List ModelConstraint)
    → InModel c cs
    → text_in g (names_of c) ≡ true
    → text_in g (names_of_model cs) ≡ true
unfolding names_of_model
names_of_model-in g c [] k h = elim k [ ]
names_of_model-in g c (_ ∷ cs) first h =
    text_in-++ g (names_of c) (names_of_model cs) ∙ (λ i. h i || text_in g (names_of_model cs))
names_of_model-in g c (b ∷ cs) (after k) h =
    text_in-++ g (names_of b) (names_of_model cs)
    ∙ (λ i. text_in g (names_of b) || names_of_model-in g c cs k h i)
    ∙ or_true _

names_of_models-in :
    (g : Text) (c : ModelConstraint) (ms : List (List ModelConstraint))
    → Has c ms
    → text_in g (names_of c) ≡ true
    → text_in g (names_of_models ms) ≡ true
unfolding names_of_models
names_of_models-in g c [] k h = elim k [ ]
names_of_models-in g c (m ∷ ms) (in_models k) h =
    text_in-++ g (names_of_model m) (names_of_models ms)
    ∙ (λ i. text_in g (names_of_model m) || names_of_models-in g c ms k h i)
    ∙ or_true _
names_of_models-in g c (m ∷ ms) (in_model k) h =
    text_in-++ g (names_of_model m) (names_of_models ms)
    ∙ (λ i. names_of_model-in g c m k h i || text_in g (names_of_models ms))

-- A custom name that a constraint declares is cleared.
pub policy_guc_names-in :
    (conf : PolicyConf) (ready : Bool) (models : List (List ModelConstraint))
    (cache : Option (List Text))
    → (g : Text) (c : ModelConstraint) → IsCacheOf models cache
    → Has c models
    → text_in g (names_of c) ≡ true
    → is_custom_guc_name g ≡ true
    → text_in g (policy_guc_names conf ready models cache).0 ≡ true
unfolding policy_guc_names declared_policy_guc_names text_in
policy_guc_names-in conf ready models cache g c k has h custom =
    text_in-only_custom g
      (fromkeys
        (conf.guc_is_admin ∷ conf.guc_current_tenant ∷ (declared_names ready models cache).0))
      custom
      (text_in-fromkeys g
          (conf.guc_is_admin ∷ conf.guc_current_tenant ∷ (declared_names ready models cache).0)
        ∙ (λ i.
            text_eq g conf.guc_is_admin
            || (text_eq g conf.guc_current_tenant
                || (ap (λ l. text_in g l) (declared_names-declared ready models cache k)
                      ∙ text_in-fromkeys g (names_of_models models)
                      ∙ names_of_models-in g c models has h)
                    i))
        ∙ (λ i. text_eq g conf.guc_is_admin || or_true (text_eq g conf.guc_current_tenant) i)
        ∙ or_true _)
