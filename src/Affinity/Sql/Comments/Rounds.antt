-- ===== src/Affinity/Sql/Comments/Rounds.antt =====
-- The rounds of `_skip_leading_comments` of django_rls_tenants/tenants/affinity.py.
use django_rls_tenants.Base.Core.{
  ℕ, zero, suc, ◌≡◌, ◌≤◌, ◌<◌, refl, ◌&&◌, ◌==◌, none, some, [], ◌∷◌, arith, inl, inr, Bool-cases,
  Option-cases,
}
use django_rls_tenants.Base.Text.{Text, length, lstrip, is_space}
use django_rls_tenants.Affinity.Sql.Comments.{
  after_line, skip_block, skip_one, skip_comments, skip_leading_comments, slash, star,
}

length-lstrip : (s : Text) → length (lstrip s) ≤ length s
unfolding lstrip
length-lstrip [] = omega arith
length-lstrip (c ∷ s) = elim (Bool-cases (is_space c)) [
  | inl e ↦ rw e (let h = length-lstrip s in omega arith)
  | inr e ↦ rw e (omega arith)
]

length-after_line : (s : Text) → length (after_line s) ≤ length s
unfolding after_line
length-after_line [] = omega arith
length-after_line (c ∷ s) = elim (Bool-cases (c == b'\n')) [
  | inl e ↦ rw e (omega arith)
  | inr e ↦ rw e (let h = length-after_line s in omega arith)
]

length-skip_block : (d : ℕ) (s : Text) → length (skip_block d s) ≤ length s
unfolding skip_block
length-skip_block zero s = omega arith
length-skip_block (suc d) [] = omega arith
length-skip_block (suc d) (a ∷ []) = omega arith
length-skip_block (suc d) (a ∷ b ∷ s) =
    let deeper = length-skip_block (suc (suc d)) s in
    let shallower = length-skip_block d s in
    let on = length-skip_block (suc d) (b ∷ s) in
    elim (Bool-cases (a == slash && b == star)) [
      | inl e ↦ rw e (omega arith)
      | inr e ↦ rw e (elim (Bool-cases (a == star && b == slash)) [
        | inl f ↦ rw f (omega arith)
        | inr f ↦ rw f (omega arith)
      ])
    ]

-- A round that goes on shortens the text.
skip_one-shorter : (t : Text) (rest : Text) → skip_one t ≡ some rest → length rest < length t
unfolding skip_one
skip_one-shorter [] rest e = cc
skip_one-shorter (a ∷ []) rest e = cc
skip_one-shorter (a ∷ b ∷ s) rest e =
    let line = length-lstrip (after_line (b ∷ s)) in
    let line' = length-after_line (b ∷ s) in
    let block = length-lstrip (skip_block 1 s) in let block' = length-skip_block 1 s in ground arith

skip_comments-clean :
    (fuel : ℕ) (t : Text) → length t < fuel → skip_one (skip_comments fuel t) ≡ none
unfolding skip_comments
skip_comments-clean zero t h = absurd (omega arith)
skip_comments-clean (suc fuel) t h = elim (Option-cases (skip_one t)) [
  | inl e ↦ rw (e, skip_comments) e
  | inr (rest, e) ↦
      rw (e, skip_comments)
        (skip_comments-clean fuel rest (let l = skip_one-shorter t rest e in omega arith))
]

-- Any two amounts of fuel that exceed the length of the text give the same.
skip_comments-fuel :
    (fuel more : ℕ) (t : Text)
    → length t < fuel
    → length t < more
    → skip_comments fuel t ≡ skip_comments more t
unfolding skip_comments
skip_comments-fuel zero more t h k = absurd (omega arith)
skip_comments-fuel (suc fuel) zero t h k = absurd (omega arith)
skip_comments-fuel (suc fuel) (suc more) t h k = elim (Option-cases (skip_one t)) [
  | inl e ↦ rw (e, skip_comments) refl
  | inr (rest, e) ↦
      let l = skip_one-shorter t rest e in
      rw (e, skip_comments) (skip_comments-fuel fuel more rest (omega arith) (omega arith))
]

-- For every text, closed comments or not, the loop of _skip_leading_comments ends: the rounds that
-- the model gives it, one more than the characters of the text, lead to a text on which its test
-- fails, and any greater number of rounds leads to the same text.
pub skip_leading_comments-ends :
    (sql : Text) (fuel : ℕ)
    → length sql < fuel
    → (skip_one (skip_leading_comments sql) ≡ none)
      × (skip_comments fuel (lstrip sql) ≡ skip_leading_comments sql)
unfolding skip_leading_comments
skip_leading_comments-ends sql fuel l =
    let h = length-lstrip sql in
    (
      skip_comments-clean (suc (length sql)) (lstrip sql) (omega arith),
      skip_comments-fuel fuel (suc (length sql)) (lstrip sql) (omega arith) (omega arith),
    )
