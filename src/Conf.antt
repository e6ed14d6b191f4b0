-- ===== src/Conf.antt =====
-- django_rls_tenants/tenants/conf.py: the settings dict `RLS_TENANTS`, its cache and its checks.
pub mod Cached
pub mod Allowlist
pub mod Tests
use django_rls_tenants.Base.Core.{
  ℕ, Bool, true, false, not, ◌&&◌, ◌||◌, Option, none, some, List, [], ◌∷◌, ◌++◌, leb, ltb, ◌==◌,
  if◌then◌else◌,
}
use django_rls_tenants.Base.Text.{Text, codes, is_empty, is_space, text_eq, text_in}
use django_rls_tenants.Base.Outcome.{Outcome, returned, raised, configuration_error, ◌>>=◌, ◌>>◌}

-- A value in the settings: `items` is a list or a tuple, `set_items` a set or a frozenset, `other`
-- anything else.
mutual
  pub data Setting : Type 0 where
    null other : Setting
    flag : Bool → Setting
    text : Text → Setting
    items set_items : Items → Setting
    mapping : Pairs → Setting

  pub data Items : Type 0 where
    no_items : Items
    item : Setting → Items → Items

  pub data Pairs : Type 0 where
    no_pairs : Pairs
    pair : Setting → Setting → Pairs → Pairs

-- `RLS_TENANTS`
abbrev pub Dict : Type 0
Dict = List (Text × Setting)

abbrev pub known_keys : List Text
known_keys =
    codes "DATABASES"
    ∷ codes "EXTERNAL_MODELS"
    ∷ codes "GUC_PREFIX"
    ∷ codes "STRICT_MODE"
    ∷ codes "STRICT_MODE_EXCLUDE"
    ∷ codes "TENANT_FK_FIELD"
    ∷ codes "TENANT_HEADER"
    ∷ codes "TENANT_MODEL"
    ∷ codes "TENANT_PK_TYPE"
    ∷ codes "TENANT_SESSION_KEY"
    ∷ codes "UNIQUE_ACROSS_TENANTS"
    ∷ codes "USE_LOCAL_SET"
    ∷ codes "USER_PARAM_NAME"
    ∷ []

-- `a <= b` of two texts
unfoldable pub text_leb : Text → Text → Bool
text_leb [] b = true
text_leb (x ∷ a) [] = false
text_leb (x ∷ a) (y ∷ b) = ltb x y || (x == y && text_leb a b)

unfoldable pub insert_sorted : Text → List Text → List Text
unfolding text_leb
insert_sorted t [] = t ∷ []
insert_sorted t (u ∷ us) = if text_leb t u then t ∷ u ∷ us else u ∷ insert_sorted t us

-- `sorted(set(config.keys()) - _KNOWN_KEYS)`
unfoldable pub unknown_keys : Dict → List Text
unfolding insert_sorted
unknown_keys [] = []
unknown_keys ((key, value) ∷ config) =
    if text_in key known_keys then unknown_keys config else insert_sorted key (unknown_keys config)

-- `_config_cache` and `_unknown_keys_checked`
pub record ConfState : Type 0 where
  pub config_cache : Option Dict
  pub unknown_keys_checked : Bool

-- `RLSTenantsConfig()`
abbrev pub new_conf : ConfState
new_conf = record { config_cache = none; unknown_keys_checked = false }

-- `reload`, but for the cache of models, which is another module's.
unfoldable pub reload : ConfState → ConfState
reload s = record { config_cache = none; unknown_keys_checked = false }

-- `_warn_unknown_keys`: the keys it warns of.
unfoldable pub warn_unknown_keys : Dict → ConfState → List Text × ConfState
unfolding unknown_keys
warn_unknown_keys config s =
    if s.unknown_keys_checked
    then ([], s)
    else (unknown_keys config, record s { unknown_keys_checked = true })

-- The cached dict, or the settings now.
abbrev pub or_settings : Dict → Option Dict → Dict
or_settings settings none = settings
or_settings settings (some config) = config

-- `_config`: the dict, and the keys it warns of.
unfoldable pub config : Dict → ConfState → (Dict × List Text) × ConfState
unfolding warn_unknown_keys
config settings s =
    let cached = or_settings settings s.config_cache in
    let (warned, s') = warn_unknown_keys cached (record s { config_cache = some cached }) in
    ((cached, warned), s')

-- `config.get(key, default)`
unfoldable pub lookup : Dict → Text → Setting → Setting
lookup [] key default = default
lookup ((k, value) ∷ config) key default =
    if text_eq k key then value else lookup config key default

abbrev pub required : Setting → Outcome Setting
required null = raised configuration_error
required v = returned v

-- `_get`, of the dict
unfoldable pub get_in : Dict → Text → Setting → Outcome Setting
unfolding lookup
get_in config key default = required (lookup config key default)

-- `_get`
unfoldable pub get : Dict → Text → Setting → ConfState → (Outcome Setting × List Text) × ConfState
unfolding config get_in
get settings key default s =
    let ((cached, warned), s') = config settings s in ((get_in cached key default, warned), s')

abbrev pub tenant_model : Dict → Outcome Setting
tenant_model config = get_in config (codes "TENANT_MODEL") null

abbrev pub guc_prefix : Dict → Outcome Setting
guc_prefix config = get_in config (codes "GUC_PREFIX") (text (codes "rls"))

-- `f"{value}..."`; the parameter is `str`.
abbrev pub with_ending : (Setting → Text) → Text → Setting → Outcome Text
with_ending str ending value = returned (str value ++ ending)

abbrev pub guc_current_tenant_of : (Setting → Text) → Dict → Outcome Text
guc_current_tenant_of str config = guc_prefix config >>= with_ending str (codes ".current_tenant")

abbrev pub guc_is_admin_of : (Setting → Text) → Dict → Outcome Text
guc_is_admin_of str config = guc_prefix config >>= with_ending str (codes ".is_admin")

abbrev pub tenant_fk_field : Dict → Outcome Setting
tenant_fk_field config = get_in config (codes "TENANT_FK_FIELD") (text (codes "tenant"))

abbrev pub user_param_name : Dict → Outcome Setting
user_param_name config = get_in config (codes "USER_PARAM_NAME") (text (codes "as_user"))

abbrev pub tenant_pk_type_of : Dict → Outcome Setting
tenant_pk_type_of config = get_in config (codes "TENANT_PK_TYPE") (text (codes "int"))

abbrev pub use_local_set_of : Dict → Outcome Setting
use_local_set_of config = get_in config (codes "USE_LOCAL_SET") (flag false)

abbrev pub strict_mode : Dict → Outcome Setting
strict_mode config = get_in config (codes "STRICT_MODE") (flag false)

abbrev pub databases_of : Dict → Outcome Setting
databases_of config =
    get_in config (codes "DATABASES") (items (item (text (codes "default")) no_items))

-- All of them are texts.
unfoldable pub texts_of : Items → Outcome (List Text)
texts_of no_items = returned []
texts_of (item (text t) more) = do ts ← texts_of more; returned (t ∷ ts)
texts_of (item other_value more) = raised configuration_error

abbrev pub labels_of : Setting → Outcome (List Text)
labels_of (items l) = texts_of l
labels_of (set_items l) = texts_of l
labels_of other_value = raised configuration_error

-- `STRICT_MODE_EXCLUDE`
unfoldable pub strict_mode_exclude : Dict → Outcome (List Text)
unfolding get_in texts_of
strict_mode_exclude config =
    get_in config (codes "STRICT_MODE_EXCLUDE") (items no_items) >>= labels_of

-- An entry of the allowlist: a name, or a tuple of field names.
pub data Entry : Type 0 where
  name : Text → Entry
  fields : List Text → Entry

-- `_allowlist_entry`
unfoldable pub allowlist_entry : Setting → Outcome Entry
unfolding texts_of
allowlist_entry (text t) = returned (name t)
allowlist_entry (items (item v more)) = do ts ← texts_of (item v more); returned (fields ts)
allowlist_entry other_value = raised configuration_error

unfoldable pub allowlist_entries : Items → Outcome (List Entry)
unfolding allowlist_entry
allowlist_entries no_items = returned []
allowlist_entries (item v more) = do
  e ← allowlist_entry v
  es ← allowlist_entries more
  returned (e ∷ es)

-- The loop over the labels.
unfoldable pub allowlist_pairs : Pairs → Outcome (List (Text × List Entry))
unfolding allowlist_entries
allowlist_pairs no_pairs = returned []
allowlist_pairs (pair (text label) (items entries) more) = do
  es ← allowlist_entries entries
  rest ← allowlist_pairs more
  returned ((label, es) ∷ rest)
allowlist_pairs (pair label entries more) = raised configuration_error

abbrev pub allowlist_of : Setting → Outcome (List (Text × List Entry))
allowlist_of (mapping pairs) = allowlist_pairs pairs
allowlist_of other_value = raised configuration_error

-- `UNIQUE_ACROSS_TENANTS`
unfoldable pub unique_across_tenants : Dict → Outcome (List (Text × List Entry))
unfolding get_in allowlist_pairs
unique_across_tenants config =
    get_in config (codes "UNIQUE_ACROSS_TENANTS") (mapping no_pairs) >>= allowlist_of

-- `EXTERNAL_MODELS`, of a dict
unfoldable pub external_pairs : Pairs → Outcome (List (Text × Text))
external_pairs no_pairs = returned []
external_pairs (pair (text label) (text field) more) = do
  rest ← external_pairs more
  returned ((label, field) ∷ rest)
external_pairs (pair label field more) = raised configuration_error

abbrev pub external_of : Setting → Outcome (List (Text × Text))
external_of (mapping pairs) = external_pairs pairs
external_of other_value = raised configuration_error

unfoldable pub external_models : Dict → Outcome (List (Text × Text))
unfolding get_in external_pairs
external_models config = get_in config (codes "EXTERNAL_MODELS") (mapping no_pairs) >>= external_of

-- `value.strip()` is not empty.
unfoldable pub has_text : Text → Bool
has_text [] = false
has_text (c ∷ s) = not (is_space c) || has_text s

abbrev pub name_or_none : Setting → Outcome (Option Text)
name_or_none null = returned none
name_or_none (text t) = if has_text t then returned (some t) else raised configuration_error
name_or_none other_value = raised configuration_error

-- `_get_name_or_none`
unfoldable pub get_name_or_none : Dict → Text → Text → Outcome (Option Text)
unfolding lookup has_text
get_name_or_none config key default = name_or_none (lookup config key (text default))

-- `_HEADER_NAME.fullmatch(header)`, of a text that is not empty
unfoldable pub is_header_name : Text → Bool
is_header_name [] = true
is_header_name (c ∷ s) =
    ((leb b'a' c && leb c b'z')
      || ((leb b'A' c && leb c b'Z') || ((leb b'0' c && leb c b'9') || c == b'-')))
    && is_header_name s

abbrev pub checked_header : Option Text → Outcome (Option Text)
checked_header none = returned none
checked_header (some header) =
    if is_header_name header then returned (some header) else raised configuration_error

-- `TENANT_HEADER`
unfoldable pub tenant_header : Dict → Outcome (Option Text)
unfolding get_name_or_none is_header_name
tenant_header config =
    get_name_or_none config (codes "TENANT_HEADER") (codes "X-Tenant") >>= checked_header

-- `TENANT_SESSION_KEY`
unfoldable pub tenant_session_key : Dict → Outcome (Option Text)
unfolding get_name_or_none
tenant_session_key config =
    get_name_or_none config (codes "TENANT_SESSION_KEY") (codes "rls_tenant")
