-- ===== src/Base/Text.antt =====
-- Python's `str` as a list of code points, with the methods that the program calls on SQL texts.
-- Case mapping and white space are those of ASCII (and of Latin-1's two spaces): on any other
-- character `upper` is the identity here.
use mathlib.Core.List.{reverse}
use django_rls_tenants.Base.Core.{
  ℕ, zero, suc, ◌+◌, ◌-◌, String, ◌≡◌, refl, ◌↔◌, Bool, true, false, ◌&&◌, ◌||◌, Option, none, some,
  List, [], ◌∷◌, ◌++◌, map, arith, leb, ltb, ◌==◌, if◌then◌else◌,
}
use Prim.Native.Char.{code}
use Prim.Native.Nat.{◌/◌, ◌%◌}

abbrev pub Text : Type 0
Text = List ℕ

-- The code points of a literal.
abbrev pub codes : String → Text
codes String.[] = []
codes (String.◌∷◌ c s) = code c ∷ codes s

abbrev pub length {ℓ} : {A : Type ℓ} → List A → ℕ
length [] = 0
length (x ∷ xs) = suc (length xs)

unfoldable pub text_eq : Text → Text → Bool
text_eq [] [] = true
text_eq (a ∷ s) (b ∷ t) = a == b && text_eq s t
text_eq _ _ = false

pub text_eq_iff : (s t : Text) → (text_eq s t ≡ true) ↔ (s ≡ t)
unfolding text_eq
text_eq_iff [] [] = ground arith
text_eq_iff [] (b ∷ t) = ground arith
text_eq_iff (a ∷ s) [] = ground arith
text_eq_iff (a ∷ s) (b ∷ t) = ground (arith, text_eq_iff s t)

pub text_eq_refl : (t : Text) → text_eq t t ≡ true
text_eq_refl t = (text_eq_iff t t).1 refl

-- `s.encode()`: the bytes of UTF-8, of a text without surrogates.
unfoldable pub encode_char : ℕ → List ℕ
encode_char c =
    if ltb c 128
    then c ∷ []
    else if ltb c 2048
    then (192 + c / 64) ∷ (128 + c % 64) ∷ []
    else if ltb c 65536
    then (224 + c / 4096) ∷ (128 + (c / 64) % 64) ∷ (128 + c % 64) ∷ []
    else (240 + c / 262144) ∷ (128 + (c / 4096) % 64) ∷ (128 + (c / 64) % 64) ∷ (128 + c % 64) ∷ []

unfoldable pub encode : Text → List ℕ
unfolding encode_char
encode [] = []
encode (c ∷ s) = encode_char c ++ encode s

abbrev pub is_empty {ℓ} : {A : Type ℓ} → List A → Bool
is_empty [] = true
is_empty (x ∷ xs) = false

-- `word in words`
unfoldable pub text_in : Text → List Text → Bool
unfolding text_eq
text_in w [] = false
text_in w (x ∷ xs) = text_eq w x || text_in w xs

-- `str.isspace` of one character.
unfoldable pub is_space : ℕ → Bool
is_space c = (leb 9 c && leb c 13) || (leb 28 c && leb c 32) || c == 133 || c == 160

unfoldable pub lstrip : Text → Text
unfolding is_space
lstrip [] = []
lstrip (c ∷ s) = if is_space c then lstrip s else c ∷ s

-- `s.startswith(t)`
unfoldable pub starts_with : Text → Text → Bool
starts_with s [] = true
starts_with [] (b ∷ t) = false
starts_with (a ∷ s) (b ∷ t) = a == b && starts_with s t

-- `s.split()`; `cur` is the word being read.
unfoldable pub split_from : Text → Text → List Text
unfolding is_space
split_from cur [] = if is_empty cur then [] else cur ∷ []
split_from cur (c ∷ s) =
    let closed = split_from [] s in
    let longer = split_from (cur ++ c ∷ []) s in
    if is_space c then (if is_empty cur then closed else cur ∷ closed) else longer

unfoldable pub split : Text → List Text
unfolding split_from
split s = split_from [] s

unfoldable pub upper_char : ℕ → ℕ
upper_char c = if leb b'a' c && leb c b'z' then c - 32 else c

unfoldable pub lower_char : ℕ → ℕ
lower_char c = if leb b'A' c && leb c b'Z' then c + 32 else c

unfoldable pub upper : Text → Text
unfolding upper_char
upper s = map upper_char s

-- `s.translate(_ASCII_LOWER)`
unfoldable pub ascii_lower : Text → Text
unfolding lower_char
ascii_lower s = map lower_char s

-- `s.lstrip(chars)`, the set of characters as a test.
unfoldable pub lstrip_chars : (ℕ → Bool) → Text → Text
lstrip_chars p [] = []
lstrip_chars p (c ∷ s) = if p c then lstrip_chars p s else c ∷ s

unfoldable pub rstrip_chars : (ℕ → Bool) → Text → Text
unfolding lstrip_chars
rstrip_chars p s = reverse (lstrip_chars p (reverse s))

-- `s[s.find(c):]` where `c` occurs.
unfoldable pub from_char : ℕ → Text → Option Text
from_char c [] = none
from_char c (x ∷ s) = if x == c then some (x ∷ s) else from_char c s

abbrev pub take {ℓ} : {A : Type ℓ} → ℕ → List A → List A
take zero xs = []
take (suc n) [] = []
take (suc n) (x ∷ xs) = x ∷ take n xs

abbrev pub drop {ℓ} : {A : Type ℓ} → ℕ → List A → List A
drop zero xs = xs
drop (suc n) [] = []
drop (suc n) (x ∷ xs) = drop n xs
