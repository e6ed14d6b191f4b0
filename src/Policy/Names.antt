-- ===== src/Policy/Names.antt =====
-- The names that the policy SQL may hold: the validation of django_rls_tenants/rls/constraints.py.
use django_rls_tenants.Base.Core.{
  ℕ, Bool, true, false, ◌&&◌, ◌||◌, Option, none, some, List, [], ◌∷◌, leb, ◌==◌, if◌then◌else◌,
}
use django_rls_tenants.Base.Text.{Text, codes, text_in}
use django_rls_tenants.Base.Outcome.{Outcome, returned, raised, value_error}
use django_rls_tenants.Rls.Guc.{is_name_start, is_guc_name}

-- `[a-zA-Z0-9_]`
abbrev pub is_word_char : ℕ → Bool
is_word_char c = is_name_start c || (leb b'0' c && leb c b'9')

unfoldable pub all_word_chars : Text → Bool
all_word_chars [] = true
all_word_chars (c ∷ s) = is_word_char c && all_word_chars s

-- `_FIELD_NAME_RE.match(field)`: `^[a-zA-Z_][a-zA-Z0-9_]*\Z`
unfoldable pub is_field_name : Text → Bool
unfolding all_word_chars
is_field_name [] = false
is_field_name (c ∷ s) = is_name_start c && all_word_chars s

abbrev pub allowed_pk_types : List Text
allowed_pk_types = codes "int" ∷ codes "bigint" ∷ codes "uuid" ∷ []

-- `$` of a pattern: the end, or a newline that ends the text.
abbrev pub at_dollar : Text → Bool
at_dollar [] = true
at_dollar (c ∷ []) = c == b'\n'
at_dollar _ = false

-- `[a-zA-Z0-9_]*$`
unfoldable pub word_to_dollar : Text → Bool
word_to_dollar [] = true
word_to_dollar (c ∷ s) = at_dollar (c ∷ s) || (is_word_char c && word_to_dollar s)

-- `[a-zA-Z_][a-zA-Z0-9_]*$`
unfoldable pub name_to_dollar : Text → Bool
unfolding word_to_dollar
name_to_dollar [] = false
name_to_dollar (c ∷ s) = is_name_start c && word_to_dollar s

-- `[a-zA-Z0-9_]*\.[a-zA-Z_][a-zA-Z0-9_]*$`
unfoldable pub dotted_to_dollar : Text → Bool
unfolding name_to_dollar
dotted_to_dollar [] = false
dotted_to_dollar (c ∷ s) =
    if c == b'.' then name_to_dollar s else (is_word_char c && dotted_to_dollar s)

-- `_MODEL_PATH_RE.match(path)`
unfoldable pub is_model_path : Text → Bool
unfolding dotted_to_dollar
is_model_path [] = false
is_model_path (c ∷ s) = is_name_start c && dotted_to_dollar s

-- A validator raises `ValueError`, or nothing.
abbrev pub validated : Bool → Outcome (Unit {0})
validated true = returned tt
validated false = raised value_error

unfoldable pub validate_field_name : Text → Outcome (Unit {0})
validate_field_name field = validated (is_field_name field)

unfoldable pub validate_pk_type : Text → Outcome (Unit {0})
validate_pk_type tenant_pk_type = validated (text_in tenant_pk_type allowed_pk_types)

unfoldable pub validate_guc_name_for_ddl : Text → Outcome (Unit {0})
validate_guc_name_for_ddl name = validated (is_guc_name name)

unfoldable pub validate_model_path : Text → Outcome (Unit {0})
validate_model_path path = validated (is_model_path path)

-- Validators one after the other: the first that raises.
abbrev pub also {ℓ} : {A : Type ℓ} → Outcome (Unit {0}) → Outcome A → Outcome A
also (returned u) next = next
also (raised e) next = raised e

-- `for flag in extra_bypass_flags: _validate_guc_name_for_ddl(flag, ...)`
unfoldable pub validate_flags : List Text → Outcome (Unit {0})
unfolding validate_guc_name_for_ddl
validate_flags [] = returned tt
validate_flags (flag ∷ flags) = also (validate_guc_name_for_ddl flag) (validate_flags flags)

-- `if name is not None: validate(name)`
abbrev pub if_given : (Text → Outcome (Unit {0})) → Option Text → Outcome (Unit {0})
if_given validate none = returned tt
if_given validate (some name) = validate name
