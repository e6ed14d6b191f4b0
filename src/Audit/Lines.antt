-- ===== src/Audit/Lines.antt =====
-- One record is one line (django_rls_tenants/tenants/audit.py).
use mathlib.Core.Path.{subst}
use django_rls_tenants.Base.Core.{
  ℕ, ◌≡◌, ◌∙◌, refl, Bool, true, false, not, ◌||◌, Option, none, some, List, [], ◌∷◌, ◌++◌, ◌==◌,
  if◌then◌else◌, arith,
}
use django_rls_tenants.Base.Text.{Text, codes, is_space}
use django_rls_tenants.Policy.Create.{join}
use django_rls_tenants.Policy.Predicates.{any_char}
use django_rls_tenants.Policy.Dollar.{any_char-++}
use django_rls_tenants.Audit.{
  FieldValue, no_value, string_value, object_value, LogField, admin_value, plain, shown_fields,
  fields_of, emit,
}

abbrev pub is_newline : ℕ → Bool
is_newline c = c == b'\n'

-- A text of one line.
pub record OneLine (t : Text) : Type 0 where
  pub absent : any_char is_newline t ≡ false

OneLine-++ : {s t : Text} → OneLine s → OneLine t → OneLine (s ++ t)
OneLine-++ {s = s} {t = t} h k = record {
  absent = any_char-++ is_newline s t ∙ (λ i. h.absent i || k.absent i);
}

-- A string may hold anything; the `str` of another object is one line.
abbrev pub IsLine : FieldValue → Type 0
IsLine no_value = Unit
IsLine (string_value t) = Unit
IsLine (object_value t) = OneLine t

pub data AreLines : List LogField → Type 0 where
  no_fields : AreLines []
  field_and :
      {name : Text} {value : FieldValue} {fields : List LogField}
      → OneLine name
      → IsLine value
      → AreLines fields
      → AreLines ((name, value) ∷ fields)

newline-space : (c : ℕ) → is_space c ≡ false → is_newline c ≡ false
unfolding is_space
newline-space c h = ground arith

or_parts : (a b : Bool) → a || b ≡ false → (a ≡ false) × (b ≡ false)
or_parts true b h = ground arith
or_parts false b h = (refl, h)

space-newline : (t : Text) → any_char is_space t ≡ false → any_char is_newline t ≡ false
unfolding any_char
space-newline [] h = refl
space-newline (c ∷ t) h =
    let (a, b) = or_parts _ _ h in λ i. newline-space c a i || space-newline t b i

pub data AllLines : List Text → Type 0 where
  no_lines : AllLines []
  line_and : {t : Text} {ts : List Text} → OneLine t → AllLines ts → AllLines (t ∷ ts)

join-OneLine : {ts : List Text} → AllLines ts → OneLine (join (codes " ") ts)
unfolding join any_char
join-OneLine no_lines = record { absent = refl }
join-OneLine (line_and a no_lines) = a
join-OneLine (line_and a (line_and b k)) =
    OneLine-++ a
      (OneLine-++ {s = codes " "} (record { absent = refl }) (join-OneLine (line_and b k)))

module _ (repr : Text → Text) (isprintable : Text → Bool)
    (repr_law : (t : Text) → OneLine (repr t)) where
  plain-OneLine : (v : FieldValue) → IsLine v → OneLine (plain repr isprintable v)
  unfolding plain any_char
  plain-OneLine no_value h = record { absent = refl }
  plain-OneLine (object_value t) h = h
  plain-OneLine (string_value t) h = of (not (isprintable t)) (any_char (λ c. c == b'=') t) _ refl
    where
      of : (a b c : Bool) → any_char is_space t ≡ c → OneLine (if a || (b || c) then repr t else t)
      of true b c e = repr_law t
      of false true c e = repr_law t
      of false false true e = repr_law t
      of false false false e = record { absent = space-newline t e }

  shown_fields-AllLines :
      {fields : List LogField} → AreLines fields → AllLines (shown_fields repr isprintable fields)
  unfolding shown_fields any_char
  shown_fields-AllLines no_fields = no_lines
  shown_fields-AllLines (field_and {name = name} {value = no_value} n v k) = shown_fields-AllLines k
  shown_fields-AllLines (field_and {name = name} {value = string_value t} n v k) =
      line_and
        (OneLine-++ n (
          OneLine-++ {s = codes "="} (record { absent = refl }) (plain-OneLine (string_value t) v)))
        (shown_fields-AllLines k)
  shown_fields-AllLines (field_and {name = name} {value = object_value t} n v k) =
      line_and
        (OneLine-++ n (
          OneLine-++ {s = codes "="} (record { absent = refl }) (plain-OneLine (object_value t) v)))
        (shown_fields-AllLines k)

  admin-IsLine : (admin : Option Bool) → IsLine (admin_value admin)
  unfolding any_char
  admin-IsLine none = tt
  admin-IsLine (some true) = record { absent = refl }
  admin-IsLine (some false) = record { absent = refl }

  fields_of-AreLines :
      (source : Text) (tenant_id : FieldValue) (admin : Option Bool) (user_id : FieldValue)
      → (details : List LogField) → IsLine tenant_id
      → IsLine user_id
      → AreLines details
      → AreLines (fields_of source tenant_id admin user_id details)
  unfolding any_char
  fields_of-AreLines source tenant_id admin user_id details t u d =
      field_and (record { absent = refl }) tt
        (field_and (record { absent = refl }) t
          (field_and (record { absent = refl }) (admin-IsLine admin)
            (field_and (record { absent = refl }) u d)))

  -- Where repr of a string holds no newline, a message that emit logs holds no newline, whatever
  -- the source and the string values of the fields are, if the event and the names of the details
  -- hold none and neither does the str of a value that is no string.
  pub emit-OneLine :
      (event source : Text) (tenant_id : FieldValue) (admin : Option Bool) (user_id : FieldValue)
      → (details : List LogField) (message : Text) → OneLine event
      → IsLine tenant_id
      → IsLine user_id
      → AreLines details
      → emit repr isprintable true event source tenant_id admin user_id details ≡ some message
      → OneLine message
  unfolding emit any_char
  emit-OneLine event source tenant_id admin user_id details message e t u d h =
      subst (λ o. OneLine (elim o as (λ _. Text) [ none ↦ [] | some m ↦ m ])) h
        (OneLine-++ e (
          OneLine-++ {s = codes " "} (record { absent = refl })
            (join-OneLine (
              shown_fields-AllLines
                (fields_of-AreLines source tenant_id admin user_id details t u d)))))
