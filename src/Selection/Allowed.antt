-- ===== src/Selection/Allowed.antt =====
-- What a request's tenant may be (django_rls_tenants/tenants/selection.py).
use django_rls_tenants.Base.Core.{◌≡◌, refl, true, Option, none, some, List, Bool-cases, inl, inr}
use django_rls_tenants.Base.Text.{Text}
use django_rls_tenants.Base.Outcome.{Outcome, returned, raised, value_error}
use django_rls_tenants.Selection.{
  Value, str_value, PkField, SelectionConfig, User, Request, Resolved, selected, own, member,
  selectable, among, may_select, raw_tenant_id, header_tenant_id, named_tenant_id, may_select_pk,
  refuse, select_header, select_session, session_tenant_id, request_tenant_id, is_session_of,
}

module _ {T O : Type 0} (field : PkField T O) (user : User O) where
  -- `t` is one of the user's tenants.
  abbrev pub IsMember : T → Type 0
  IsMember t = (ts : List T) × (selectable field user ≡ returned ts) × (member field t ts ≡ true)

  abbrev IsMemberPk : Outcome (Option T) → Type 0
  IsMemberPk (returned (some t)) = IsMember t
  IsMemberPk _ = Unit {0}

  -- What the context of a request may be entered with: one of the user's tenants, or the user's own.
  unfoldable pub IsAllowed : Outcome (Resolved T O) → Type 0
  IsAllowed (returned (selected t)) = IsMember t
  IsAllowed (returned (own v)) = v ≡ user.rls_tenant_id
  IsAllowed (raised e) = Unit {0}

  among-IsMemberPk :
      (t : T) (o : Outcome (List T)) → selectable field user ≡ o → IsMemberPk (among field t o)
  unfolding among
  among-IsMemberPk t (raised e) s = tt
  among-IsMemberPk t (returned ts) s = elim (Bool-cases (member field t ts)) [
    | inl m ↦ rw m (ts, s, m)
    | inr m ↦ rw m tt
  ]

  may_select_pk-IsMemberPk : (o : Outcome (Option T)) → IsMemberPk (may_select_pk field user o)
  unfolding may_select_pk
  may_select_pk-IsMemberPk (raised value_error) = tt
  may_select_pk-IsMemberPk (raised e) = tt
  may_select_pk-IsMemberPk (returned none) = tt
  may_select_pk-IsMemberPk (returned (some t)) = among-IsMemberPk t (selectable field user) refl

  may_select-IsMemberPk : (value : Value O) → IsMemberPk (may_select field user value)
  unfolding may_select
  may_select-IsMemberPk value = may_select_pk-IsMemberPk (field.to_python value)

  select_header-IsAllowed :
      (raw : Value O) (source : Text) (o : Outcome (Option T)) (r : Request T O)
      → IsMemberPk o
      → IsAllowed (select_header field user raw source o r).0
  unfolding select_header refuse IsAllowed
  select_header-IsAllowed raw source (raised e) r m = tt
  select_header-IsAllowed raw source (returned none) r m = tt
  select_header-IsAllowed raw source (returned (some t)) r m = m

  select_session-IsAllowed :
      (raw : Value O) (source key : Text) (session : Text → Option (Value O))
      (o : Outcome (Option T)) (r : Request T O)
      → IsMemberPk o
      → IsAllowed (select_session field user raw source key session o r).0
  unfolding select_session refuse IsAllowed
  select_session-IsAllowed raw source key session (raised e) r m = tt
  select_session-IsAllowed raw source key session (returned none) r m = tt
  select_session-IsAllowed raw source key session (returned (some t)) r m = m

  raw_tenant_id-IsAllowed :
      (key : Text) (session : Text → Option (Value O)) (source : Text) (raw : Option (Value O))
      (r : Request T O)
      → IsAllowed (raw_tenant_id field key session user source raw r).0
  unfolding raw_tenant_id IsAllowed
  raw_tenant_id-IsAllowed key session source none r = refl
  raw_tenant_id-IsAllowed key session source (some raw) r =
      elim (Bool-cases (is_session_of session user)) [
        | inl b ↦
            rw b (select_session-IsAllowed raw source key session _ r (may_select-IsMemberPk raw))
        | inr b ↦ rw b refl
      ]

  session_tenant_id-IsAllowed :
      (key : Option Text) (session : Option (Text → Option (Value O))) (source : Text)
      (r : Request T O)
      → IsAllowed (session_tenant_id field key session user source r).0
  unfolding session_tenant_id IsAllowed
  session_tenant_id-IsAllowed none session source r = refl
  session_tenant_id-IsAllowed (some key) none source r = refl
  session_tenant_id-IsAllowed (some key) (some session) source r =
      raw_tenant_id-IsAllowed key session source (session key) r

  header_tenant_id-IsAllowed :
      (conf : SelectionConfig) (source : Text) (raw : Option Text) (r : Request T O)
      → IsAllowed (header_tenant_id field conf user source raw r).0
  unfolding header_tenant_id
  header_tenant_id-IsAllowed conf source none r =
      session_tenant_id-IsAllowed conf.tenant_session_key r.session source r
  header_tenant_id-IsAllowed conf source (some raw) r =
      select_header-IsAllowed (str_value raw) source _ r (may_select-IsMemberPk (str_value raw))

  named_tenant_id-IsAllowed :
      (conf : SelectionConfig) (source : Text) (header : Option Text) (r : Request T O)
      → IsAllowed (named_tenant_id field conf user source header r).0
  unfolding named_tenant_id
  named_tenant_id-IsAllowed conf source none r = header_tenant_id-IsAllowed conf source none r
  named_tenant_id-IsAllowed conf source (some header) r =
      header_tenant_id-IsAllowed conf source (r.headers header) (record r { vary = some header })

  -- For every request and configuration, _request_tenant_id raises, or gives a tenant that is in
  -- the set of the user's tenants, or gives the user's own rls_tenant_id.
  pub request_tenant_id-IsAllowed :
      (conf : SelectionConfig) (source : Text) (r : Request T O)
      → IsAllowed (request_tenant_id field conf user source r).0
  unfolding request_tenant_id
  request_tenant_id-IsAllowed conf source r =
      named_tenant_id-IsAllowed conf source conf.tenant_header r
