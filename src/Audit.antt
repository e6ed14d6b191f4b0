-- ===== src/Audit.antt =====
-- django_rls_tenants/tenants/audit.py: the records of the audit log. The logger is no part of the
-- model: `emit` gives the message that it is called with.
pub mod Lines
mod Tests
use django_rls_tenants.Base.Core.{
  ℕ, Bool, true, false, not, ◌||◌, Option, none, some, List, [], ◌∷◌, ◌++◌, ◌==◌, if◌then◌else◌,
}
use django_rls_tenants.Base.Text.{Text, codes, is_space}
use django_rls_tenants.Policy.Create.{join}
use django_rls_tenants.Policy.Predicates.{any_char}

-- The value of a field: a string, another object with its `str`, or `None`.
pub data FieldValue : Type 0 where
  no_value : FieldValue
  string_value : Text → FieldValue
  object_value : Text → FieldValue

-- A field, by its name.
abbrev pub LogField : Type 0
LogField = Text × FieldValue

abbrev pub context_denied : Text
context_denied = codes "context.denied"

abbrev pub admin_value : Option Bool → FieldValue
admin_value none = no_value
admin_value (some true) = object_value (codes "True")
admin_value (some false) = object_value (codes "False")

-- The source (`None`: not audited) and the user's primary key.
pub record Origin : Type 0 where
  pub source : Option Text
  pub user_id : FieldValue

-- The `fields` of `emit`, in their order.
abbrev pub fields_of : Text → FieldValue → Option Bool → FieldValue → List LogField → List LogField
fields_of source tenant_id admin user_id details =
    (codes "source", string_value source)
    ∷ (codes "tenant_id", tenant_id)
    ∷ (codes "admin", admin_value admin)
    ∷ (codes "user_id", user_id)
    ∷ details

abbrev pub is_none_value : FieldValue → Bool
is_none_value no_value = true
is_none_value v = false

-- Python's `repr` and `isprintable` of a string.
module _ (repr : Text → Text) (isprintable : Text → Bool) where
  -- `_plain`
  unfoldable pub plain : FieldValue → Text
  unfolding any_char is_space
  plain no_value = codes "None"
  plain (object_value t) = t
  plain (string_value t) =
      if not (isprintable t) || (any_char (λ c. c == b'=') t || any_char is_space t)
      then repr t
      else t

  -- The fields that are not `None`, as `name=value`.
  unfoldable pub shown_fields : List LogField → List Text
  unfolding plain
  shown_fields [] = []
  shown_fields ((name, no_value) ∷ fields) = shown_fields fields
  shown_fields ((name, object_value t) ∷ fields) =
      (name ++ (codes "=" ++ plain (object_value t))) ∷ shown_fields fields
  shown_fields ((name, string_value t) ∷ fields) =
      (name ++ (codes "=" ++ plain (string_value t))) ∷ shown_fields fields

  -- `emit`; the flag is `isEnabledFor(level)`.
  unfoldable pub emit :
      Bool → Text → Text → FieldValue → Option Bool → FieldValue → List LogField → Option Text
  unfolding shown_fields join
  emit false event source tenant_id admin user_id details = none
  emit true event source tenant_id admin user_id details = some (
      event
      ++ (codes " "
          ++ join (codes " ") (shown_fields (fields_of source tenant_id admin user_id details))))

  -- `denied`
  unfoldable pub log_denied :
      Bool → Text → Text → FieldValue → FieldValue → Option Bool → List LogField → Option Text
  unfolding emit
  log_denied enabled source reason user_id tenant_id admin details =
      emit enabled context_denied source tenant_id admin user_id
        ((codes "reason", string_value reason) ∷ details)

  -- The record of a block whose origin has a source.
  abbrev pub event_of : Bool → Text → Option Text → FieldValue → FieldValue → Text → Option Text
  event_of enabled event none user_id tenant_id using = none
  event_of enabled event (some source) user_id tenant_id using =
      emit enabled event source tenant_id (some (is_none_value tenant_id)) user_id
        ((codes "using", string_value using) ∷ [])

  -- `context_event`
  unfoldable pub context_event : Bool → Text → Origin → FieldValue → Text → Option Text
  unfolding emit
  context_event enabled event origin tenant_id using =
      event_of enabled event origin.source origin.user_id tenant_id using
