-- ===== src/Policy/Dollar.antt =====
-- The dollar quotes of the policies' `DO` blocks (django_rls_tenants/rls/constraints.py) end where
-- they are to end: no name and no predicate holds a dollar sign.
pub mod Predicates
pub mod Bodies
pub mod Executed
use django_rls_tenants.Base.Core.{
  ℕ, ◌≡◌, ◌∙◌, ◌⊎◌, ap, sym, refl, and_parts, Bool, true, false, ◌&&◌, ◌||◌, Option, none, some,
  List, [], ◌∷◌, ◌++◌, ◌==◌, leb, map, inl, inr, arith, if◌then◌else◌, Bool-cases,
}
use django_rls_tenants.Base.Text.{Text, codes, is_empty, text_eq, text_eq_iff, text_in, starts_with}
use django_rls_tenants.Base.Outcome.{Error, Outcome, returned, raised, ◌>>=◌, ◌>>◌, >>=-returned}
use django_rls_tenants.Rls.Guc.{is_name_start, is_name_char, all_name_chars, is_guc_name}
use django_rls_tenants.Policy.Names.{
  is_word_char, all_word_chars, is_field_name, allowed_pk_types, validated,
  validate_guc_name_for_ddl, validate_flags, also,
}
use django_rls_tenants.Policy.Fragment.{
  scalar_setting, tenant_value_sql, tenant_match_sql, bool_flag_sql,
}
use django_rls_tenants.Policy.Create.{
  join, enable_and_create, case_sql, using_and_check, or_line, policy_using, policy_check,
  or_predicate,
}
use django_rls_tenants.Policy.Predicates.{any_char, double_percent}

abbrev pub has_dollar : Text → Bool
has_dollar s = any_char (λ c. c == b'$') s

pub any_char-++ : (p : ℕ → Bool) (s t : Text) → any_char p (s ++ t) ≡ (any_char p s || any_char p t)
unfolding any_char
any_char-++ p [] t = refl
any_char-++ p (c ∷ s) t = of (p c) (any_char p s) (any_char-++ p s t)
  where
    of :
        (a b : Bool)
        → any_char p (s ++ t) ≡ (b || any_char p t)
        → (a || any_char p (s ++ t)) ≡ ((a || b) || any_char p t)
    of true b e = refl
    of false b e = e

pub record NoDollar (t : Text) : Type 0 where
  pub absent : has_dollar t ≡ false

-- Two texts without a dollar sign.
pub NoDollar-++ : {s t : Text} → NoDollar s → NoDollar t → NoDollar (s ++ t)
NoDollar-++ {s = s} {t = t} h k = record {
  absent = any_char-++ (λ c. c == b'$') s t ∙ (λ i. h.absent i || k.absent i);
}

raised-returned : {A : Type 0} {x : Error} {a : A} → raised x ≡ returned a → ⊥
raised-returned e = cc

is_name_char-dollar : (c : ℕ) → is_name_char c ≡ true → (c == b'$') ≡ false
is_name_char-dollar c h = ground arith

is_word_char-dollar : (c : ℕ) → is_word_char c ≡ true → (c == b'$') ≡ false
is_word_char-dollar c h = ground arith

all_name_chars-dollar : (s : Text) → all_name_chars s ≡ true → has_dollar s ≡ false
unfolding all_name_chars any_char
all_name_chars-dollar [] h = refl
all_name_chars-dollar (c ∷ s) h =
    let (a, b) = and_parts _ _ h in λ i. is_name_char-dollar c a i || all_name_chars-dollar s b i

all_word_chars-dollar : (s : Text) → all_word_chars s ≡ true → has_dollar s ≡ false
unfolding all_word_chars any_char
all_word_chars-dollar [] h = refl
all_word_chars-dollar (c ∷ s) h =
    let (a, b) = and_parts _ _ h in λ i. is_word_char-dollar c a i || all_word_chars-dollar s b i

start-name : (c : ℕ) → is_name_start c ≡ true → is_name_char c ≡ true
start-name c h = ground arith

start-word : (c : ℕ) → is_name_start c ≡ true → is_word_char c ≡ true
start-word c h = ground arith

is_guc_name-absent : (s : Text) → is_guc_name s ≡ true → has_dollar s ≡ false
unfolding is_guc_name any_char
is_guc_name-absent [] h = refl
is_guc_name-absent (c ∷ s) h =
    let (a, b) = and_parts _ _ h in
    λ i. is_name_char-dollar c (start-name c a) i || all_name_chars-dollar s b i

pub is_guc_name-NoDollar : {s : Text} → is_guc_name s ≡ true → NoDollar s
is_guc_name-NoDollar {s = s} h = record { absent = is_guc_name-absent s h }

is_field_name-absent : (s : Text) → is_field_name s ≡ true → has_dollar s ≡ false
unfolding is_field_name any_char
is_field_name-absent [] h = refl
is_field_name-absent (c ∷ s) h =
    let (a, b) = and_parts _ _ h in
    λ i. is_word_char-dollar c (start-word c a) i || all_word_chars-dollar s b i

pub is_field_name-NoDollar : {s : Text} → is_field_name s ≡ true → NoDollar s
is_field_name-NoDollar {s = s} h = record { absent = is_field_name-absent s h }

or_cases : (a b : Bool) → a || b ≡ true → (a ≡ true) ⊎ (b ≡ true)
or_cases true b h = inl refl
or_cases false b h = inr h

-- A text that is one without a dollar sign.
is_one : {s : Text} (t : Text) → has_dollar t ≡ false → text_eq s t ≡ true → NoDollar s
is_one {s = s} t h e = record { absent = ap (λ u. has_dollar u) ((text_eq_iff s t).0 e) ∙ h }

pub pk_type-NoDollar : {s : Text} → text_in s allowed_pk_types ≡ true → NoDollar s
unfolding text_in any_char
pk_type-NoDollar {s = s} h = elim (or_cases (text_eq s (codes "int")) _ h) [
  | inl e ↦ is_one (codes "int") refl e
  | inr k ↦ elim (or_cases (text_eq s (codes "bigint")) _ k) [
    | inl e ↦ is_one (codes "bigint") refl e
    | inr l ↦ elim (or_cases (text_eq s (codes "uuid")) _ l) [
      | inl e ↦ is_one (codes "uuid") refl e
      | inr m ↦ ground arith
    ]
  ]
]

-- A literal.
pub literal : (t : Text) → has_dollar t ≡ false → NoDollar t
literal t h = record { absent = h }

setting-NoDollar : {g : Text} → NoDollar g → NoDollar (scalar_setting g)
unfolding scalar_setting any_char
setting-NoDollar h =
    NoDollar-++ (literal (codes "(SELECT current_setting('") refl)
      (NoDollar-++ h (literal (codes "', true))") refl))

pub tenant_value-NoDollar :
    {g type : Text} → NoDollar g → NoDollar type → NoDollar (tenant_value_sql g type)
unfolding tenant_value_sql any_char
tenant_value-NoDollar h k =
    NoDollar-++ (literal (codes "nullif(") refl)
      (NoDollar-++ (setting-NoDollar h) (NoDollar-++ (literal (codes ", '')::") refl) k))

pub match-NoDollar :
    {col g type : Text}
    → NoDollar col
    → NoDollar g
    → NoDollar type
    → NoDollar (tenant_match_sql col g type)
unfolding tenant_match_sql any_char
match-NoDollar c h k =
    NoDollar-++ c (NoDollar-++ (literal (codes " = ") refl) (tenant_value-NoDollar h k))

pub flag-NoDollar : {g : Text} → NoDollar g → NoDollar (bool_flag_sql g)
unfolding bool_flag_sql any_char
flag-NoDollar h = NoDollar-++ (setting-NoDollar h) (literal (codes " = 'true'") refl)

-- No text of a list holds a dollar sign.
pub data NoDollars : List Text → Type 0 where
  nothing : NoDollars []
  more : {t : Text} {ts : List Text} → NoDollar t → NoDollars ts → NoDollars (t ∷ ts)

pub join-NoDollar :
    {separator : Text} {ts : List Text}
    → NoDollar separator
    → NoDollars ts
    → NoDollar (join separator ts)
unfolding join any_char
join-NoDollar h nothing = literal [] refl
join-NoDollar h (more a nothing) = a
join-NoDollar h (more a (more b k)) = NoDollar-++ a (NoDollar-++ h (join-NoDollar h (more b k)))

-- `_validate_guc_name_for_ddl` of each flag.
pub flags-NoDollars :
    (flags : List Text) → validate_flags flags ≡ returned tt → NoDollars (map bool_flag_sql flags)
unfolding validate_flags validate_guc_name_for_ddl
flags-NoDollars [] h = nothing
flags-NoDollars (flag ∷ flags) h = elim (Bool-cases (is_guc_name flag)) [
  | inl e ↦
      more (flag-NoDollar (is_guc_name-NoDollar e))
        (flags-NoDollars flags ((λ i. also (validated (sym e i)) (validate_flags flags)) ∙ h))
  | inr e ↦ absurd (raised-returned ((λ i. also (validated (sym e i)) (validate_flags flags)) ∙ h))
]
