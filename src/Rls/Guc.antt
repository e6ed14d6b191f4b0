-- ===== src/Rls/Guc.antt =====
-- django_rls_tenants/rls/guc.py: setting, reading and clearing a GUC on a connection. PostgreSQL
-- behind Django's cursor is the parameter `Database`.
use django_rls_tenants.Base.Core.{
  ℕ, Bool, true, false, not, ◌&&◌, ◌||◌, Option, none, some, [], ◌∷◌, leb, ◌==◌, if◌then◌else◌,
}
use django_rls_tenants.Base.Text.{Text, is_empty}
use django_rls_tenants.Base.Outcome.{
  database_error, runtime_error, value_error, Outcome, returned, raised, and_then,
}

-- `set` runs `SET LOCAL` or `set_config`, `show` runs `current_setting(name, true)`, which gives
-- no value (NULL) for a name that was never set.
pub record Database : Type 1 where
  pub Session : Type 0
  pub set : Bool → Text → Text → Session → Outcome (Unit {0}) × Session
  pub show : Text → Session → Outcome (Option Text) × Session

-- The Django connection of an alias.
pub record Conn (d : Database) : Type 0 where
  pub session : d.Session
  pub in_atomic_block : Bool
  pub needs_rollback : Bool

-- `[a-zA-Z_]`
abbrev pub is_name_start : ℕ → Bool
is_name_start c = (leb b'a' c && leb c b'z') || (leb b'A' c && leb c b'Z') || c == b'_'

-- `[a-zA-Z0-9_.]`
abbrev pub is_name_char : ℕ → Bool
is_name_char c = is_name_start c || (leb b'0' c && leb c b'9') || c == b'.'

-- `[a-zA-Z0-9_.]*\Z`
unfoldable pub all_name_chars : Text → Bool
all_name_chars [] = true
all_name_chars (c ∷ s) = is_name_char c && all_name_chars s

-- `_GUC_NAME_RE.match(name)`
unfoldable pub is_guc_name : Text → Bool
unfolding all_name_chars
is_guc_name [] = false
is_guc_name (c ∷ s) = is_name_start c && all_name_chars s

-- `value if value != "" else None`
abbrev pub not_empty : Option Text → Option Text
not_empty none = none
not_empty (some v) = if is_empty v then none else some v

module _ (d : Database) where
  -- `_validate_guc_name`
  unfoldable pub validate_guc_name : Text → Conn d → Outcome (Unit {0}) × Conn d
  validate_guc_name name conn = (if is_guc_name name then returned tt else raised value_error, conn)

  -- A statement on Django's cursor, which raises TransactionManagementError, a database error, in
  -- an atomic block that is to be rolled back.
  abbrev pub on_cursor : {A : Type 0} → (Conn d → Outcome A × Conn d) → Conn d → Outcome A × Conn d
  on_cursor statement conn =
      if conn.needs_rollback then (raised database_error, conn) else statement conn

  -- The two statements of `set_guc`.
  unfoldable pub execute_set : Text → Text → Bool → Conn d → Outcome (Unit {0}) × Conn d
  execute_set name value is_local conn =
      on_cursor
        (λ c. let (o, s) = d.set is_local name value c.session in (o, record c { session = s }))
        conn

  unfoldable pub set_guc : Text → Text → Bool → Conn d → Outcome (Unit {0}) × Conn d
  set_guc name value is_local conn = and_then (validate_guc_name name conn) (λ _ c.
      if is_local && not c.in_atomic_block
      then (raised runtime_error, c)
      else execute_set name value is_local c)

  -- The statement of `get_guc`.
  unfoldable pub execute_show : Text → Conn d → Outcome (Option Text) × Conn d
  execute_show name conn =
      on_cursor (λ c. let (o, s) = d.show name c.session in (o, record c { session = s })) conn

  unfoldable pub get_guc : Text → Conn d → Outcome (Option Text) × Conn d
  get_guc name conn =
      and_then (validate_guc_name name conn)
        (λ _ c. and_then (execute_show name c) (λ value c'. (returned (not_empty value), c')))

  unfoldable pub clear_guc : Text → Bool → Conn d → Outcome (Unit {0}) × Conn d
  clear_guc name is_local conn = set_guc name [] is_local conn

  unfoldable pub restore_guc : Text → Option Text → Bool → Conn d → Outcome (Unit {0}) × Conn d
  restore_guc name none is_local conn = clear_guc name is_local conn
  restore_guc name (some previous) is_local conn = set_guc name previous is_local conn
