-- ===== src/Audit/Tests.antt =====
-- A tenant id from a header, with a line break in it.
use django_rls_tenants.Base.Core.{refl, Bool, true, none, some, []}
use django_rls_tenants.Base.Text.{Text, codes}
use django_rls_tenants.Policy.Predicates.{any_char}
use django_rls_tenants.Audit.{no_value, string_value, emit}
use django_rls_tenants.Audit.Lines.{OneLine, no_fields, emit-OneLine}

-- A `repr` that shows no string.
abbrev hidden : Text → Text
hidden t = codes "'...'"

abbrev printable : Text → Bool
printable t = true

hidden-OneLine : (t : Text) → OneLine (hidden t)
unfolding any_char
hidden-OneLine t = record { absent = refl }

abbrev message : Text
message =
    elim (emit hidden printable true (codes "context.denied") (codes "celery")
        (string_value (codes "7\ncontext.entered")) none no_value [])
      as (λ _. Text) [ none ↦ [] | some m ↦ m ]

emit-OneLine_example : OneLine message
unfolding emit any_char
emit-OneLine_example =
    emit-OneLine hidden printable hidden-OneLine (codes "context.denied") (codes "celery")
      (string_value (codes "7\ncontext.entered")) none no_value [] message
      (record { absent = refl }) tt tt no_fields refl
