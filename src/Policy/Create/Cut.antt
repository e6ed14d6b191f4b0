-- ===== src/Policy/Create/Cut.antt =====
-- PostgreSQL cuts a policy's name to 63 bytes (`_sharing_policy_name_problem` of
-- django_rls_tenants/rls/constraints.py).
use mathlib.Core.List.{append_assoc}
use django_rls_tenants.Base.Core.{
  ℕ, zero, suc, ◌+◌, ◌≤◌, ◌≡◌, ◌∙◌, ◌↔◌, ap, sym, refl, true, [], ◌∷◌, ◌++◌, arith,
}
use django_rls_tenants.Base.Text.{Text, codes, length, take, encode, encode_char}
use django_rls_tenants.Policy.Create.{
  isolation_policy_name, sharing_policy_name, sharing_policy_name_problem, max_identifier_bytes,
  policy_name_common_prefix,
}

head_eq : (a : ℕ) (s t : Text) → (a ∷ s) ≡ (a ∷ t) → s ≡ t
head_eq a s t e = ap (λ (l : Text). elim l [ [] ↦ s | x ∷ xs ↦ xs ]) e

-- What a cut leaves behind a text.
abbrev left_of : ℕ → Text → ℕ
left_of n [] = n
left_of zero (x ∷ t) = 0
left_of (suc n) (x ∷ t) = left_of n t

-- Behind the same text, cut alike means the rests are cut alike.
take-++ :
    (n : ℕ) (t a b : Text)
    → (take n (t ++ a) ≡ take n (t ++ b)) ↔ (take (left_of n t) a ≡ take (left_of n t) b)
take-++ n [] a b = (λ e. e, λ e. e)
take-++ zero (x ∷ t) a b = (λ _. refl, λ _. refl)
take-++ (suc n) (x ∷ t) a b =
    let (f, g) = take-++ n t a b in (λ e. f (head_eq x _ _ e), λ e. ap (λ l. x ∷ l) (g e))

left_of-≤ : (n : ℕ) (t : Text) → (left_of n t ≤ 8) ↔ (n ≤ length t + 8)
left_of-≤ n [] = (λ h. omega arith, λ h. omega arith)
left_of-≤ zero (x ∷ t) = (λ h. omega arith, λ h. omega arith)
left_of-≤ (suc n) (x ∷ t) =
    let (f, g) = left_of-≤ n t in (λ h. let k = f h in omega arith, λ h. g (omega arith))

-- The character at a place.
abbrev nth : ℕ → Text → ℕ
nth n [] = 0
nth zero (c ∷ s) = c
nth (suc n) (c ∷ s) = nth n s

-- The two endings agree in their first eight characters.
endings-cut :
    (m : ℕ)
    → (take m (codes "_tenant_isolation_policy") ≡ take m (codes "_tenant_sharing_policy"))
      ↔ (m ≤ 8)
endings-cut zero = (λ _. omega arith, λ _. refl)
endings-cut (suc zero) = (λ _. omega arith, λ _. refl)
endings-cut (suc (suc zero)) = (λ _. omega arith, λ _. refl)
endings-cut (suc (suc (suc zero))) = (λ _. omega arith, λ _. refl)
endings-cut (suc (suc (suc (suc zero)))) = (λ _. omega arith, λ _. refl)
endings-cut (suc (suc (suc (suc (suc zero))))) = (λ _. omega arith, λ _. refl)
endings-cut (suc (suc (suc (suc (suc (suc zero)))))) = (λ _. omega arith, λ _. refl)
endings-cut (suc (suc (suc (suc (suc (suc (suc zero))))))) = (λ _. omega arith, λ _. refl)
endings-cut (suc (suc (suc (suc (suc (suc (suc (suc zero)))))))) = (λ _. omega arith, λ _. refl)
endings-cut (suc (suc (suc (suc (suc (suc (suc (suc (suc m))))))))) = (
  λ e. let h = ap (nth (suc (suc (suc (suc (suc (suc (suc (suc zero))))))))) e in omega arith,
  λ h. ground arith,
)

length-++ : (s t : Text) → length (s ++ t) ≡ length s + length t
length-++ [] t = omega arith
length-++ (c ∷ s) t = let h = length-++ s t in omega arith

encode-++ : (s t : Text) → encode (s ++ t) ≡ encode s ++ encode t
unfolding encode
encode-++ [] t = refl
encode-++ (c ∷ s) t =
    ap (λ bytes. encode_char c ++ bytes) (encode-++ s t)
    ∙ sym (append_assoc (encode_char c) (encode s) (encode t))

-- What follows a table's name is ASCII.
isolation_bytes :
    (table : Text)
    → encode (isolation_policy_name table) ≡ encode table ++ codes "_tenant_isolation_policy"
unfolding encode encode_char
isolation_bytes table = encode-++ table (codes "_tenant_isolation_policy")

sharing_bytes :
    (table : Text)
    → encode (sharing_policy_name table) ≡ encode table ++ codes "_tenant_sharing_policy"
unfolding encode encode_char
sharing_bytes table = encode-++ table (codes "_tenant_sharing_policy")

prefix_bytes :
    (table : Text) → encode (table ++ policy_name_common_prefix) ≡ encode table ++ codes "_tenant_"
unfolding encode encode_char
prefix_bytes table = encode-++ table (codes "_tenant_")

problem-long :
    (table : Text) → (sharing_policy_name_problem table ≡ true) ↔ (63 ≤ length (encode table) + 8)
unfolding sharing_policy_name_problem
problem-long table =
    let h = ap length (prefix_bytes table) ∙ length-++ (encode table) (codes "_tenant_") in
    ground arith

-- For every table name, whatever its characters, the names of the tenant policy and the sharing
-- policy are equal in their first 63 bytes of UTF-8 exactly if _sharing_policy_name_problem finds a
-- problem.
pub policy_names-cut :
    (table : Text)
    → (take max_identifier_bytes (encode (isolation_policy_name table))
        ≡ take max_identifier_bytes (encode (sharing_policy_name table)))
      ↔ (sharing_policy_name_problem table ≡ true)
policy_names-cut table =
    let bytes = encode table in
    let (a, b) =
      take-++ 63 bytes (codes "_tenant_isolation_policy") (codes "_tenant_sharing_policy") in
    let (c, d) = endings-cut (left_of 63 bytes) in
    let (e, f) = left_of-≤ 63 bytes in
    let (g, h) = problem-long table in
    let i = ap (take 63) (isolation_bytes table) in
    let j = ap (take 63) (sharing_bytes table) in
    (λ x. h (e (c (a (sym i ∙ x ∙ j)))), λ y. i ∙ b (d (f (g y))) ∙ sym j)
