-- ===== src/Policy/Dollar/Predicates.antt =====
-- The texts of a sharing policy's predicates (django_rls_tenants/rls/predicates.py).
use django_rls_tenants.Base.Core.{
  ℕ, ◌≡◌, refl, Bool, true, false, ◌||◌, List, [], ◌∷◌, ◌==◌, inl, inr, arith, if◌then◌else◌,
  Bool-cases,
}
use django_rls_tenants.Base.Text.{Text, codes, starts_with}
use django_rls_tenants.Base.Outcome.{
  returned, raised, value_error, Post, post, post_raised, Post->>=, Post-always,
}
use django_rls_tenants.Policy.Model.{Model, Apps}
use django_rls_tenants.Policy.Predicates.{
  any_char, is_unsafe_char, quoted, Predicate, shared_with, tenant_field, raw_predicate,
  new_raw_predicate, contains, contains_one_of, unsafe_raw_sql, double_percent, model_found,
  check_target, foreign_key_of, exists_shared, shared_with_sql, tenant_field_sql, raw_sql,
  policy_sql, predicates_sql,
}
use django_rls_tenants.Policy.Dollar.{
  has_dollar, NoDollar, NoDollar-++, literal, NoDollars, nothing, more,
}

pub unsafe-dollar : (s : Text) → any_char is_unsafe_char s ≡ false → has_dollar s ≡ false
unfolding any_char
unsafe-dollar [] h = refl
unsafe-dollar (c ∷ s) h = let (a, b) = or_parts _ _ h in λ i. char c a i || unsafe-dollar s b i
  where
    or_parts : (a b : Bool) → a || b ≡ false → (a ≡ false) × (b ≡ false)
    or_parts true b h = ground arith
    or_parts false b h = (refl, h)

    char : (c : ℕ) → is_unsafe_char c ≡ false → (c == b'$') ≡ false
    char c h = ground arith

quoted-NoDollar : (name : Text) → Post NoDollar (quoted name)
unfolding quoted any_char
quoted-NoDollar name = elim (Bool-cases (any_char is_unsafe_char name)) [
  | inl e ↦ rw e post_raised
  | inr e ↦ rw e (
      post (
        NoDollar-++ (literal (codes "\"") refl)
          (NoDollar-++ (record { absent = unsafe-dollar name e }) (literal (codes "\"") refl))))
]

-- What the predicates of a policy are: a raw one was checked when it was made.
pub data IsMade : Predicate → Type 0 where
  shared : {through fk tenant_fk : Text} → IsMade (shared_with through fk tenant_fk)
  field : {name : Text} → IsMade (tenant_field name)
  raw :
      {sql : Text}
      → new_raw_predicate sql ≡ returned (raw_predicate sql)
      → IsMade (raw_predicate sql)

pub data AreMade : List Predicate → Type 0 where
  none_made : AreMade []
  one_made : {p : Predicate} {ps : List Predicate} → IsMade p → AreMade ps → AreMade (p ∷ ps)

contains-dollar : (s : Text) → contains (codes "$") s ≡ false → has_dollar s ≡ false
unfolding contains any_char starts_with
contains-dollar [] h = refl
contains-dollar (c ∷ s) h = let k = contains-dollar s in ground arith

raw-dollar : (s : Text) → contains_one_of unsafe_raw_sql s ≡ false → has_dollar s ≡ false
unfolding contains_one_of
raw-dollar s h = let k = contains-dollar s in ground arith

double_percent-dollar : (s : Text) → has_dollar s ≡ false → has_dollar (double_percent s) ≡ false
unfolding any_char double_percent
double_percent-dollar [] h = refl
double_percent-dollar (c ∷ s) h = let k = double_percent-dollar s in ground arith

raw_sql-NoDollar :
    (s : Text) → new_raw_predicate s ≡ returned (raw_predicate s) → NoDollar (raw_sql s)
unfolding raw_sql new_raw_predicate any_char
raw_sql-NoDollar s h = NoDollar-++ (literal (codes "(") refl) (
    NoDollar-++ (record { absent = double_percent-dollar s (raw-dollar s (of _ _ h)) })
      (literal (codes ")") refl))
  where
    of :
        (a b : Bool)
        → (if a
            then raised value_error
            else if b
            then raised value_error
            else returned (raw_predicate s))
          ≡ returned (raw_predicate s)
        → b ≡ false
    of true b h = cc
    of false true h = cc
    of false false h = refl

exists_shared-NoDollar :
    {through_table fk_column table target_column tenant_column tenant_value : Text}
    → NoDollar through_table
    → NoDollar fk_column
    → NoDollar table
    → NoDollar target_column
    → NoDollar tenant_column
    → NoDollar tenant_value
    → NoDollar
        (exists_shared through_table fk_column table target_column tenant_column tenant_value)
unfolding exists_shared any_char
exists_shared-NoDollar a b c d e f = NoDollar-++ (literal (codes "EXISTS (SELECT 1 FROM ") refl) (
    NoDollar-++ a (
      NoDollar-++ (literal (codes " AS \"rls_shared\" WHERE \"rls_shared\".") refl) (
        NoDollar-++ b (
          NoDollar-++ (literal (codes " = ") refl) (
            NoDollar-++ c (
              NoDollar-++ (literal (codes ".") refl) (
                NoDollar-++ d (
                  NoDollar-++ (literal (codes " AND \"rls_shared\".") refl) (
                    NoDollar-++ e (
                      NoDollar-++ (literal (codes " = ") refl)
                        (NoDollar-++ f (literal (codes ")") refl))))))))))))

policy_sql-NoDollar :
    (apps : Apps) (model : Model) (tenant_value : Text) (p : Predicate)
    → NoDollar tenant_value
    → IsMade p
    → Post NoDollar (policy_sql apps model tenant_value p)
unfolding policy_sql shared_with_sql tenant_field_sql any_char
policy_sql-NoDollar apps model tenant_value (shared_with through fk tenant_fk) v shared =
    Post-always (model_found (apps through)) λ t. Post-always (foreign_key_of t fk) λ f.
      Post-always (check_target f.related_model model) λ _.
        Post-always (foreign_key_of t tenant_fk) λ k.
          Post->>= (quoted t.db_table) (quoted-NoDollar t.db_table) λ through_table a.
            Post->>= (quoted model.db_table) (quoted-NoDollar model.db_table) λ table b.
              Post->>= (quoted f.column) (quoted-NoDollar f.column) λ fk_column c.
                Post->>= (quoted f.target_column) (quoted-NoDollar f.target_column)
                  λ target_column d.
                    Post->>= (quoted k.column) (quoted-NoDollar k.column)
                      λ tenant_column e. post (exists_shared-NoDollar a c b d e v)
policy_sql-NoDollar apps model tenant_value (tenant_field name) v field =
    Post-always (foreign_key_of model name) λ key.
      Post->>= (quoted model.db_table) (quoted-NoDollar model.db_table) λ table a.
        Post->>= (quoted key.column) (quoted-NoDollar key.column) λ column b. post (
          NoDollar-++ a (
            NoDollar-++ (literal (codes ".") refl)
              (NoDollar-++ b (NoDollar-++ (literal (codes " = ") refl) v))))
policy_sql-NoDollar apps model tenant_value (raw_predicate sql) v (raw h) =
    post (raw_sql-NoDollar sql h)

pub predicates_sql-NoDollars :
    (apps : Apps) (model : Model) (tenant_value : Text) (ps : List Predicate)
    → NoDollar tenant_value
    → AreMade ps
    → Post NoDollars (predicates_sql apps model tenant_value ps)
unfolding predicates_sql
predicates_sql-NoDollars apps model tenant_value [] v none_made = post nothing
predicates_sql-NoDollars apps model tenant_value (p ∷ ps) v (one_made h hs) =
    Post->>= (policy_sql apps model tenant_value p)
      (policy_sql-NoDollar apps model tenant_value p v h)
      λ sql a.
        Post->>= (predicates_sql apps model tenant_value ps)
          (predicates_sql-NoDollars apps model tenant_value ps v hs) λ rest b. post (more a b)
