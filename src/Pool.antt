-- ===== src/Pool.antt =====
-- django_rls_tenants/pool.py: the GUCs of connections that outlive a request.
pub mod Names
pub mod Cleared
pub mod Tests
use django_rls_tenants.Base.Core.{
  ℕ, zero, suc, Bool, true, false, not, ◌&&◌, ◌||◌, Option, none, some, List, [], ◌∷◌, ◌++◌, leb,
  ◌==◌, if◌then◌else◌,
}
use django_rls_tenants.Base.Text.{Text, codes, length, is_empty, text_eq}
use django_rls_tenants.Base.Outcome.{Outcome, returned, raised, and_then}
use django_rls_tenants.Rls.Guc.{is_name_start}
use django_rls_tenants.Policy.Create.{join}
use django_rls_tenants.Policy.Safe.{PolicyConf}
use django_rls_tenants.Policy.Constraint.{RlsConstraint}
use django_rls_tenants.Policy.M2m.{M2mConstraint}

-- `[A-Za-z0-9_$]`
abbrev pub is_part_char : ℕ → Bool
is_part_char c = is_name_start c || ((leb b'0' c && leb c b'9') || c == b'$')

-- `_CUSTOM_GUC_NAME_RE`, from the start of a part or from within one; the second flag tells whether
-- a dot was read.
unfoldable pub custom_from : Bool → Bool → Text → Bool
custom_from true dotted [] = false
custom_from true dotted (c ∷ s) = is_name_start c && custom_from false dotted s
custom_from false dotted [] = dotted
custom_from false dotted (c ∷ s) =
    let next = custom_from true true s in
    let same_part = custom_from false dotted s in
    if c == b'.' then next else is_part_char c && same_part

unfoldable pub is_custom_guc_name : Text → Bool
unfolding custom_from
is_custom_guc_name name = custom_from true false name

-- The list without a name.
unfoldable pub without : Text → List Text → List Text
without name [] = []
without name (n ∷ ns) = if text_eq n name then without name ns else n ∷ without name ns

-- `dict.fromkeys(names)`
unfoldable pub fromkeys : List Text → List Text
unfolding without
fromkeys [] = []
fromkeys (n ∷ ns) = n ∷ without n (fromkeys ns)

-- `_meta.constraints` of the installed models.
pub data ModelConstraint : Type 0 where
  rls : RlsConstraint → ModelConstraint
  rls_m2m : M2mConstraint → ModelConstraint
  other_constraint : ModelConstraint

unfoldable pub names_of : ModelConstraint → List Text
names_of (rls c) = c.guc_tenant_var ∷ c.guc_admin_var ∷ c.extra_bypass_flags
names_of (rls_m2m c) = c.guc_tenant_var ∷ c.guc_admin_var ∷ []
names_of other_constraint = []

-- The inner loop, over a model's constraints.
unfoldable pub names_of_model : List ModelConstraint → List Text
unfolding names_of
names_of_model [] = []
names_of_model (c ∷ cs) = names_of c ++ names_of_model cs

-- The loop over the models.
unfoldable pub names_of_models : List (List ModelConstraint) → List Text
unfolding names_of_model
names_of_models [] = []
names_of_models (m ∷ ms) = names_of_model m ++ names_of_models ms

-- `_declared_policy_guc_names`
unfoldable pub declared_policy_guc_names : List (List ModelConstraint) → List Text
unfolding fromkeys names_of_models
declared_policy_guc_names models = fromkeys (names_of_models models)

-- `_declared_policy_guc_names_cached`, with its cache.
unfoldable pub declared_cached :
    List (List ModelConstraint) → Option (List Text) → List Text × Option (List Text)
unfolding declared_policy_guc_names
declared_cached models (some names) = (names, some names)
declared_cached models none = let names = declared_policy_guc_names models in (names, some names)

unfoldable pub declared_names :
    Bool → List (List ModelConstraint) → Option (List Text) → List Text × Option (List Text)
unfolding declared_cached
declared_names true models cache = declared_cached models cache
declared_names false models cache = (declared_policy_guc_names models, cache)

-- `if _CUSTOM_GUC_NAME_RE.fullmatch(name)`
unfoldable pub only_custom : List Text → List Text
unfolding is_custom_guc_name
only_custom [] = []
only_custom (n ∷ ns) = if is_custom_guc_name n then n ∷ only_custom ns else only_custom ns

-- `_policy_guc_names`; the flag is `apps.ready`.
unfoldable pub policy_guc_names :
    PolicyConf
    → Bool
    → List (List ModelConstraint)
    → Option (List Text)
    → List Text × Option (List Text)
unfolding declared_names only_custom fromkeys
policy_guc_names conf ready models cache =
    let (declared, cache') = declared_names ready models cache in
    (only_custom (fromkeys (conf.guc_is_admin ∷ conf.guc_current_tenant ∷ declared)), cache')

-- `[text] * count`
unfoldable pub repeated : ℕ → Text → List Text
repeated zero t = []
repeated (suc n) t = t ∷ repeated n t

-- `_build_clear_gucs_sql`
unfoldable pub build_clear_gucs_sql : ℕ → Text
unfolding join repeated
build_clear_gucs_sql count =
    codes "SELECT " ++ join (codes ", ") (repeated count (codes "set_config(%s, '', false)"))

-- The psycopg connection; `value` is what its session has for a GUC.
pub record PoolDriver : Type 1 where
  pub Session : Type 0
  pub execute : Text → List Text → Session → Outcome (Unit {0}) × Session
  pub commit : Session → Outcome (Unit {0}) × Session
  pub value : Session → Text → Option Text

module _ (d : PoolDriver) where
  -- `if not autocommit: commit()`
  abbrev pub commit_unless : Bool → d.Session → Outcome (Unit {0}) × d.Session
  commit_unless true s = (returned tt, s)
  commit_unless false s = d.commit s

  -- The statement, if there are names.
  unfoldable pub clear_names : Bool → List Text → d.Session → Outcome (Unit {0}) × d.Session
  unfolding build_clear_gucs_sql
  clear_names autocommit [] s = (returned tt, s)
  clear_names autocommit (n ∷ ns) s =
      and_then (d.execute (build_clear_gucs_sql (length (n ∷ ns))) (n ∷ ns) s)
        (λ _ s'. commit_unless autocommit s')

  -- `reset_rls_gucs`, with the cache of the declared names.
  unfoldable pub reset_rls_gucs :
      PolicyConf
      → Bool
      → List (List ModelConstraint)
      → Bool
      → Option (List Text)
      → d.Session
      → (Outcome (Unit {0}) × d.Session) × Option (List Text)
  unfolding policy_guc_names clear_names
  reset_rls_gucs conf ready models autocommit cache s =
      let (names, cache') = policy_guc_names conf ready models cache in
      (clear_names autocommit names s, cache')

  -- `_clear_policy_gucs`, on a Django connection whose cursor may raise; the flag is
  -- `get_autocommit()`.
  unfoldable pub clear_policy_gucs :
      (d.Session → Outcome (Unit {0}) × d.Session)
      → Bool
      → List Text
      → d.Session
      → Outcome (Unit {0}) × d.Session
  unfolding clear_names
  clear_policy_gucs cursor autocommit [] s = (returned tt, s)
  clear_policy_gucs cursor autocommit (n ∷ ns) s =
      and_then (cursor s) (λ _ s'. clear_names autocommit (n ∷ ns) s')

-- `OPTIONS["pool"]`: not there, falsy, `True`, or options.
pub data PoolSetting : Type 0 where
  no_pool : PoolSetting
  pool_true : PoolSetting
  pool_options_of : List (Text × Text) → PoolSetting

-- `_pool_options`
unfoldable pub pool_options : PoolSetting → Option (List (Text × Text))
pool_options no_pool = none
pool_options pool_true = some []
pool_options (pool_options_of []) = none
pool_options (pool_options_of (o ∷ os)) = some (o ∷ os)
