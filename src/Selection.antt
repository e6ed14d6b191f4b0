-- ===== src/Selection.antt =====
-- django_rls_tenants/tenants/selection.py: a user of several tenants selects one, by a header of
-- the request or by a value in the session. The primary key of the tenant model, which converts a
-- value to a tenant id, is the parameter `PkField`.
pub mod Allowed
pub mod Stored
mod Tests
use django_rls_tenants.Base.Core.{
  ℕ, ◌≡◌, Bool, true, false, not, ◌&&◌, ◌||◌, ltb, Option, none, some, List, [], ◌∷◌, ◌++◌,
  if◌then◌else◌,
}
use django_rls_tenants.Base.Text.{Text, codes, text_eq, length, take}
use django_rls_tenants.Base.Outcome.{
  Error, value_error, permission_denied, configuration_error, Outcome, returned, raised, and_then,
}

-- A Python value other than `None`: a string, or another object.
pub data Value (O : Type 0) : Type 0 where
  str_value : Text → Value O
  object : O → Value O

-- `to_python` of the primary key, which may give `None`, and where it raises `ValidationError`,
-- `TypeError` or `ValueError` (all `value_error` here); `str` of a tenant id, and their equality.
pub record PkField (T : Type 0) (O : Type 0) : Type 0 where
  pub to_python : Value O → Outcome (Option T)
  pub str : T → Text
  pub same : T → T → Bool

-- The settings read here.
pub record SelectionConfig : Type 0 where
  pub tenant_header : Option Text
  pub tenant_session_key : Option Text

-- A user. `multi_tenant` says that it is a `MultiTenantUser`; `session_form` is how a session names
-- it, its primary key `pk` as a string, if it has one.
pub record User (O : Type 0) : Type 0 where
  pub multi_tenant : Bool
  pub is_tenant_admin : Bool
  pub is_authenticated : Bool
  pub pk : Option (Value O)
  pub session_form : Option Text
  pub rls_tenant_id : Option (Value O)
  pub rls_tenant_ids : List (Value O)

pub data Via : Type 0 where
  by_header by_session by_query by_switch : Via

-- The audit events.
pub data Event (T : Type 0) (O : Type 0) : Type 0 where
  denied : Text → Text → Option (Value O) → Value O → Via → Event T O
  switched : Text → Option T → Option (Value O) → Option (Value O) → Event T O

-- A request, with the log that its handling writes. `headers` is the lookup of Django, which
-- ignores case; a session is read by key, and `None` is no value; `vary` is `_VARY_ATTRIBUTE`.
pub record Request (T : Type 0) (O : Type 0) : Type 0 where
  pub headers : Text → Option Text
  pub session : Option (Text → Option (Value O))
  pub user : Option (User O)
  pub vary : Option Text
  pub events : List (Event T O)

-- What `_request_tenant_id` gives: a selection, or the user's own `rls_tenant_id`.
pub data Resolved (T : Type 0) (O : Type 0) : Type 0 where
  selected : T → Resolved T O
  own : Option (Value O) → Resolved T O

-- `django.contrib.auth.SESSION_KEY`
abbrev pub session_key : Text
session_key = codes "_auth_user_id"

abbrev pub shown_length : ℕ
shown_length = 64

-- `session[key] = value`, and with no value `session.pop(key, None)`.
unfoldable pub store : {A : Type 0} → Text → Option A → (Text → Option A) → Text → Option A
store key value session k = if text_eq k key then value else session k

-- `value == s` for a string `s`.
abbrev pub is_str : {O : Type 0} → Value O → Text → Bool
is_str (str_value t) s = text_eq t s
is_str (object o) s = false

-- `_selects_tenants`
unfoldable pub selects_tenants : {O : Type 0} → User O → Bool
selects_tenants user = user.multi_tenant && not user.is_tenant_admin

-- `_shown`
unfoldable pub shown : {O : Type 0} → Value O → Value O
shown (str_value raw) =
    if ltb shown_length (length raw)
    then str_value (take shown_length raw ++ codes "...")
    else str_value raw
shown (object o) = object o

-- `_is_session_of`
unfoldable pub is_session_of : {O : Type 0} → (Text → Option (Value O)) → User O → Bool
is_session_of session user = elim (session session_key) [
  | none ↦ false
  | some stored ↦ elim user.session_form [ none ↦ false | some form ↦ is_str stored form ]
]

module _ {T O : Type 0} (field : PkField T O) where
  -- `tenant_id in tenants`
  unfoldable pub member : T → List T → Bool
  member t [] = false
  member t (u ∷ us) = field.same t u || member t us

  -- `selectable.add(...)` of a value, and then `discard(None)`.
  abbrev add_pk : Outcome (Option T) → Outcome (List T) → Outcome (List T)
  add_pk (raised e) ts = raised e
  add_pk (returned t) (raised e) = raised e
  add_pk (returned none) (returned ts) = returned ts
  add_pk (returned (some t)) (returned ts) = returned (t ∷ ts)

  -- The set comprehension of `_selectable`.
  unfoldable pub selectable_ids : List (Value O) → Outcome (List T)
  selectable_ids [] = returned []
  selectable_ids (tenant_id ∷ ids) = add_pk (field.to_python tenant_id) (selectable_ids ids)

  -- The rest of `_selectable`.
  abbrev add_own : Option (Value O) → Outcome (List T) → Outcome (List T)
  add_own none ts = ts
  add_own (some tenant_id) (raised e) = raised e
  add_own (some tenant_id) (returned ts) = add_pk (field.to_python tenant_id) (returned ts)

  unfoldable pub selectable : User O → Outcome (List T)
  unfolding selectable_ids
  selectable user = add_own user.rls_tenant_id (selectable_ids user.rls_tenant_ids)

  -- `tenant_id not in _selectable(user)`
  unfoldable pub among : T → Outcome (List T) → Outcome (Option T)
  unfolding member
  among t (raised e) = raised e
  among t (returned ts) = returned (if member t ts then some t else none)

  -- What `_may_select` makes of the conversion.
  unfoldable pub may_select_pk : User O → Outcome (Option T) → Outcome (Option T)
  unfolding among selectable
  may_select_pk user (raised value_error) = returned none
  may_select_pk user (raised e) = raised e
  may_select_pk user (returned none) = returned none
  may_select_pk user (returned (some t)) = among t (selectable user)

  unfoldable pub may_select : User O → Value O → Outcome (Option T)
  unfolding may_select_pk
  may_select user value = may_select_pk user (field.to_python value)

  abbrev pub Handled : Type 0 → Type 0
  Handled A = Outcome A × Request T O

  -- `raise _refuse(...)`: the audit event, and the exception.
  unfoldable pub refuse : {A : Type 0} → User O → Value O → Text → Via → Request T O → Handled A
  refuse user raw source via r = (
    raised permission_denied,
    record r {
      events =
          r.events ++ denied source (codes "tenant_not_selectable") user.pk (shown raw) via ∷ [];
    },
  )

  -- `_refuse` of a request whose user is missing.
  unfoldable pub refuse_anyone :
      {A : Type 0} → Option (User O) → Value O → Text → Via → Request T O → Handled A
  refuse_anyone (some user) raw source via r = refuse user raw source via r
  refuse_anyone none raw source via r = (
    raised permission_denied,
    record r {
      events = r.events ++ denied source (codes "tenant_not_selectable") none (shown raw) via ∷ [];
    },
  )

  -- What a selection that was read comes to.
  unfoldable pub select_header :
      User O → Value O → Text → Outcome (Option T) → Request T O → Handled (Resolved T O)
  select_header user raw source (raised e) r = (raised e, r)
  select_header user raw source (returned none) r = refuse user raw source by_header r
  select_header user raw source (returned (some t)) r = (returned (selected t), r)

  unfoldable pub select_session :
      User O
      → Value O
      → Text
      → Text
      → (Text → Option (Value O))
      → Outcome (Option T)
      → Request T O
      → Handled (Resolved T O)
  select_session user raw source key session (raised e) r = (raised e, r)
  select_session user raw source key session (returned none) r =
      refuse user raw source by_session (record r { session = some (store key none session) })
  select_session user raw source key session (returned (some t)) r = (returned (selected t), r)

  -- The part of `_request_tenant_id` about the session, from its `raw` value on.
  unfoldable pub raw_tenant_id :
      Text
      → (Text → Option (Value O))
      → User O
      → Text
      → Option (Value O)
      → Request T O
      → Handled (Resolved T O)
  raw_tenant_id key session user source none r = (returned (own user.rls_tenant_id), r)
  raw_tenant_id key session user source (some raw) r =
      if is_session_of session user
      then select_session user raw source key session (may_select user raw) r
      else (returned (own user.rls_tenant_id), r)

  -- The same, from its `session` on.
  unfoldable pub session_tenant_id :
      Option Text
      → Option (Text → Option (Value O))
      → User O
      → Text
      → Request T O
      → Handled (Resolved T O)
  session_tenant_id none session user source r = (returned (own user.rls_tenant_id), r)
  session_tenant_id (some key) none user source r = (returned (own user.rls_tenant_id), r)
  session_tenant_id (some key) (some session) user source r =
      raw_tenant_id key session user source (session key) r

  -- The part about the header, from its `raw` value on.
  unfoldable pub header_tenant_id :
      SelectionConfig → User O → Text → Option Text → Request T O → Handled (Resolved T O)
  header_tenant_id conf user source none r =
      session_tenant_id conf.tenant_session_key r.session user source r
  header_tenant_id conf user source (some raw) r =
      select_header user (str_value raw) source (may_select user (str_value raw)) r

  -- The same, from the `header`'s name on.
  unfoldable pub named_tenant_id :
      SelectionConfig → User O → Text → Option Text → Request T O → Handled (Resolved T O)
  named_tenant_id conf user source none r = header_tenant_id conf user source none r
  named_tenant_id conf user source (some header) r =
      header_tenant_id conf user source (r.headers header) (record r { vary = some header })

  unfoldable pub request_tenant_id :
      SelectionConfig → User O → Text → Request T O → Handled (Resolved T O)
  request_tenant_id conf user source r = named_tenant_id conf user source conf.tenant_header r

  -- What `_selection_session` makes of the setting and the session.
  unfoldable pub session_under :
      Option Text
      → Option (Text → Option (Value O))
      → Request T O
      → Handled ((Text → Option (Value O)) × Text)
  session_under none session r = (raised configuration_error, r)
  session_under (some key) none r = (raised configuration_error, r)
  session_under (some key) (some session) r = (returned (session, key), r)

  unfoldable pub selection_session :
      SelectionConfig → Request T O → Handled ((Text → Option (Value O)) × Text)
  selection_session conf r = session_under conf.tenant_session_key r.session r

  -- The end of `_switch`.
  unfoldable pub switch_to :
      User O
      → Value O
      → Text
      → Via
      → (Text → Option (Value O))
      → Text
      → Outcome (Option T)
      → Request T O
      → Handled T
  switch_to user value source via session key (raised e) r = (raised e, r)
  switch_to user value source via session key (returned none) r = refuse user value source via r
  switch_to user value source via session key (returned (some t)) r = (
    returned t,
    record r {
      session = some (store key (some (str_value (field.str t))) session);
      events = r.events ++ switched source (some t) user.pk (session key) ∷ [];
    },
  )

  -- `_switch`, from the request's user on.
  unfoldable pub switch_as :
      Option (User O)
      → Value O
      → Text
      → Via
      → (Text → Option (Value O))
      → Text
      → Request T O
      → Handled T
  switch_as none value source via session key r = refuse_anyone none value source via r
  switch_as (some user) value source via session key r =
      if not user.is_authenticated || not (selects_tenants user)
      then refuse user value source via r
      else if not (is_session_of session user)
      then refuse user value source via r
      else switch_to user value source via session key (may_select user value) r

  unfoldable pub switch_request : SelectionConfig → Value O → Text → Via → Request T O → Handled T
  switch_request conf value source via r =
      and_then (selection_session conf r)
        (λ (session, key) r'. switch_as r'.user value source via session key r')

  -- The end of `_clear`, with the previous value.
  unfoldable pub cleared : Option (Value O) → User O → Text → Request T O → Handled (Unit {0})
  cleared none user source r = (returned tt, r)
  cleared (some previous) user source r = (
    returned tt,
    record r { events = r.events ++ switched source none user.pk (some previous) ∷ [] },
  )

  -- `_clear`, from the request's user on.
  unfoldable pub clear_as :
      Option (User O) → Text → (Text → Option (Value O)) → Text → Request T O → Handled (Unit {0})
  clear_as none source session key r = (returned tt, r)
  clear_as (some user) source session key r =
      if not user.is_authenticated || not (is_session_of session user)
      then (returned tt, r)
      else cleared (session key) user source (record r { session = some (store key none session) })

  unfoldable pub clear_request : SelectionConfig → Text → Request T O → Handled (Unit {0})
  clear_request conf source r =
      and_then (selection_session conf r)
        (λ (session, key) r'. clear_as r'.user source session key r')

  unfoldable pub switch_tenant : SelectionConfig → Value O → Request T O → Handled T
  switch_tenant conf tenant_id r = switch_request conf tenant_id (codes "selection") by_switch r

  unfoldable pub clear_tenant_selection : SelectionConfig → Request T O → Handled (Unit {0})
  clear_tenant_selection conf r = clear_request conf (codes "selection") r
