-- ===== src/Selection/Stored.antt =====
-- A selection in the session: what the next request makes of it.
use django_rls_tenants.Base.Core.{
  ◌≡◌, ◌∙◌, ap, sym, refl, true, false, Option, none, some, List, [], ◌∷◌, ◌++◌, Bool-cases, inl,
  inr, arith,
}
use django_rls_tenants.Base.Text.{Text, text_eq, text_eq_refl, codes}
use django_rls_tenants.Base.Outcome.{
  Outcome, returned, raised, value_error, permission_denied, and_then,
}
use django_rls_tenants.Selection.{
  Value, str_value, PkField, SelectionConfig, User, Request, Resolved, selected, own, member,
  selectable, among, may_select, raw_tenant_id, header_tenant_id, named_tenant_id, may_select_pk,
  refuse, select_session, session_tenant_id, request_tenant_id, is_session_of, store, session_key,
  selects_tenants, by_session, by_switch, switched, switch_tenant, switch_request, switch_as,
  switch_to, selection_session, session_under, clear_tenant_selection, clear_request, clear_as,
  cleared,
}

-- What a request's tenant header says, if there is one.
abbrev pub header_of : {T O : Type 0} → SelectionConfig → Request T O → Option Text
header_of conf r = elim conf.tenant_header [ none ↦ none | some header ↦ r.headers header ]

-- A session of the user, with selections stored under a key of their own.
pub record HasSession {T O : Type 0} (conf : SelectionConfig) (user : User O) (key : Text)
    (session : Text → Option (Value O)) (r : Request T O) : Type 0 where
  pub stored_under : conf.tenant_session_key ≡ some key
  pub own_key : text_eq session_key key ≡ false
  pub session_of : r.session ≡ some session
  pub users : is_session_of session user ≡ true

is_session_of-store :
    {O : Type 0} (key : Text) (v : Option (Value O)) (session : Text → Option (Value O))
    (user : User O)
    → text_eq session_key key ≡ false
    → is_session_of (store key v session) user ≡ is_session_of session user
unfolding is_session_of store text_eq
is_session_of-store key v session user n = rw n refl

module _ {T O : Type 0} (field : PkField T O) (user : User O) where
  among-same : (u t : T) (o : Outcome (List T)) → among field u o ≡ returned (some t) → u ≡ t
  unfolding among
  among-same u t (raised e) a = cc
  among-same u t (returned ts) a = elim (Bool-cases (member field u ts)) [
    | inl m ↦ ground (arith, a, m)
    | inr m ↦ ground (arith, a, m)
  ]

  may_select_pk-among :
      (t : T) (o : Outcome (Option T))
      → may_select_pk field user o ≡ returned (some t)
      → may_select_pk field user (returned (some t)) ≡ returned (some t)
  unfolding may_select_pk
  may_select_pk-among t (raised value_error) e = cc
  may_select_pk-among t (raised x) e = cc
  may_select_pk-among t (returned none) e = cc
  may_select_pk-among t (returned (some u)) e =
      ap (λ u'. among field u' (selectable field user))
        (sym (among-same u t (selectable field user) e))
      ∙ e

  -- Without a header, the session decides; the request is the same but for `vary`.
  from_session :
      (conf : SelectionConfig) (source : Text) (header : Option Text) (r : Request T O)
      → elim header as (λ _. Option Text) [ none ↦ none | some h ↦ r.headers h ] ≡ none
      → (v : Option Text) × (named_tenant_id field conf user source header r
          ≡ session_tenant_id field conf.tenant_session_key r.session user source
              (record r { vary = v }))
  unfolding named_tenant_id header_tenant_id
  from_session conf source none r n = (r.vary, refl)
  from_session conf source (some header) r n = (
    some header,
    ap (λ o. header_tenant_id field conf user source o (record r { vary = some header })) n,
  )

  module _ (conf : SelectionConfig) (key : Text) (session : Text → Option (Value O)) (source : Text)
      (r : Request T O) (h : HasSession conf user key session r)
      (no_header : header_of conf r ≡ none) where
    -- What a session that is the user's says.
    decided :
        (v : Option Text) × (request_tenant_id field conf user source r
          ≡ raw_tenant_id field key session user source (session key) (record r { vary = v }))
    unfolding session_tenant_id request_tenant_id
    decided =
        let (v, e) = from_session conf source conf.tenant_header r no_header in
        (
          v,
          e ∙ (λ i.
              session_tenant_id field (h.stored_under i) (h.session_of i) user source
                (record r { vary = v })),
        )

    -- A selection that is allowed is the tenant of the request.
    stored_selection :
        (raw : Value O) (t : T)
        → session key ≡ some raw
        → may_select field user raw ≡ returned (some t)
        → (request_tenant_id field conf user source r).0 ≡ returned (selected t)
    unfolding raw_tenant_id select_session
    stored_selection raw t k m =
        let (v, e) = decided in ap (λ p. p.0) e ∙ rw k (rw h.users (rw m refl))

    -- A session without a selection leaves the user's own tenant.
    no_selection :
        session key ≡ none
        → (request_tenant_id field conf user source r).0 ≡ returned (own user.rls_tenant_id)
    unfolding raw_tenant_id
    no_selection k = let (v, e) = decided in ap (λ p. p.0) e ∙ rw k refl

    selection_session-has : selection_session field conf r ≡ (returned (session, key), r)
    unfolding selection_session session_under
    selection_session-has = λ i. session_under field (h.stored_under i) (h.session_of i) r

  -- The session of `r` with another selection is still the user's.
  store-HasSession :
      (conf : SelectionConfig) (key : Text) (session : Text → Option (Value O)) (r r' : Request T O)
      (v : Option (Value O))
      → HasSession conf user key session r
      → r'.session ≡ some (store key v session)
      → HasSession conf user key (store key v session) r'
  store-HasSession conf key session r r' v h e = record {
    stored_under = h.stored_under;
    own_key = h.own_key;
    session_of = e;
    users = is_session_of-store key v session user h.own_key ∙ h.users;
  }

  stored :
      (key : Text) (v : Option (Value O)) (session : Text → Option (Value O))
      → store key v session key ≡ v
  unfolding store
  stored key v session = rw (text_eq_refl key) refl

  -- The request whose selection is refused.
  abbrev dropped :
      Text → Value O → Text → (Text → Option (Value O)) → Option Text → Request T O → Request T O
  dropped key raw source session v r =
      (refuse field {A = Resolved T O} user raw source by_session
        (record r { vary = v; session = some (store key none session) })).1

  -- A selection in the user's own session, under a key other than the login's, that the user may
  -- not select makes _request_tenant_id raise PermissionDenied when there is no tenant header, and
  -- _request_tenant_id of the request after it gives the user's own rls_tenant_id.
  pub request_tenant_id-refused :
      (conf : SelectionConfig) (key : Text) (session : Text → Option (Value O)) (source : Text)
      (r : Request T O) (raw : Value O)
      → HasSession conf user key session r
      → header_of conf r ≡ none
      → session key ≡ some raw
      → may_select field user raw ≡ returned none
      → let (o, r') = request_tenant_id field conf user source r in
        (o ≡ raised permission_denied)
        × ((request_tenant_id field conf user source r').0 ≡ returned (own user.rls_tenant_id))
  unfolding raw_tenant_id select_session refuse
  request_tenant_id-refused conf key session source r raw h n k m =
      let (v, e) = decided conf key session source r h n in
      let R = dropped key raw source session v r in
      let fact : request_tenant_id field conf user source r ≡ (raised permission_denied, R) =
        e ∙ rw k (rw h.users (rw m refl)) in
      rw fact (
        refl,
        no_selection conf key (store key none session) source R
            (store-HasSession conf key session r R none h refl) n (stored key none session),
      )

  -- For an authenticated user of several tenants who is no tenant admin, in a session of their own
  -- under a key other than the login's, without a tenant header, and where the primary key reads
  -- its own string form back, switch_tenant to a value that the user may select gives its tenant,
  -- and _request_tenant_id of the request after it gives the same tenant.
  pub request_tenant_id-switch_tenant :
      (conf : SelectionConfig) (key : Text) (session : Text → Option (Value O)) (source : Text)
      (r : Request T O) (value : Value O) (t : T)
      → HasSession conf user key session r
      → header_of conf r ≡ none
      → r.user ≡ some user
      → user.is_authenticated ≡ true
      → selects_tenants user ≡ true
      → may_select field user value ≡ returned (some t)
      → field.to_python (str_value (field.str t)) ≡ returned (some t)
      → let (o, r') = switch_tenant field conf value r in
        (o ≡ returned t) × ((request_tenant_id field conf user source r').0 ≡ returned (selected t))
  unfolding switch_tenant switch_request switch_as switch_to may_select
  request_tenant_id-switch_tenant conf key session source r value t h n u a s m back =
      let stored_value = str_value (field.str t) in
      let R : Request T O = record r {
        session = some (store key (some stored_value) session);
        events = r.events ++ switched (codes "selection") (some t) user.pk (session key) ∷ [];
      } in
      let fact : switch_tenant field conf value r ≡ (returned t, R) =
        ap
          (λ p.
            and_then p
              (λ (x, k) r'. switch_as field r'.user value (codes "selection") by_switch x k r'))
          (selection_session-has conf key session source r h n)
        ∙ ap (λ w. switch_as field w value (codes "selection") by_switch session key r) u
        ∙ rw s (rw h.users (rw m (rw a refl))) in
      rw fact (
        refl,
        stored_selection conf key (store key (some stored_value) session) source R
            (store-HasSession conf key session r R (some stored_value) h refl) n stored_value t
            (stored key (some stored_value) session)
            (ap (may_select_pk field user) back ∙ may_select_pk-among t (field.to_python value) m),
      )

  -- After an authenticated user clears the selection of their own session, kept under a key other
  -- than the login's, which raises nothing, _request_tenant_id of a request without a tenant header
  -- gives the user's own rls_tenant_id.
  pub request_tenant_id-clear_tenant_selection :
      (conf : SelectionConfig) (key : Text) (session : Text → Option (Value O)) (source : Text)
      (r : Request T O)
      → HasSession conf user key session r
      → header_of conf r ≡ none
      → r.user ≡ some user
      → user.is_authenticated ≡ true
      → let (o, r') = clear_tenant_selection field conf r in
        (o ≡ returned tt)
        × ((request_tenant_id field conf user source r').0 ≡ returned (own user.rls_tenant_id))
  unfolding clear_tenant_selection clear_request clear_as cleared
  request_tenant_id-clear_tenant_selection conf key session source r h n u a =
      let R : Request T O = record r { session = some (store key none session) } in
      let fact : clear_tenant_selection field conf r
          ≡ cleared field (session key) user (codes "selection") R =
        ap (λ p. and_then p (λ (x, k) r'. clear_as field r'.user (codes "selection") x k r'))
          (selection_session-has conf key session source r h n)
        ∙ ap (λ w. clear_as field w (codes "selection") session key r) u
        ∙ rw h.users (rw a refl) in
      rw fact (then_own (session key) R (store-HasSession conf key session r R none h refl) n)
    where
      then_own :
          (previous : Option (Value O)) (R : Request T O)
          → HasSession conf user key (store key none session) R
          → header_of conf R ≡ none
          → let (o, r') = cleared field previous user (codes "selection") R in
            (o ≡ returned tt)
            × ((request_tenant_id field conf user source r').0 ≡ returned (own user.rls_tenant_id))
      then_own none R h' n' = (
        refl,
        no_selection conf key (store key none session) source R h' n' (stored key none session),
      )
      then_own (some previous) R h' n' = (
        refl,
        no_selection conf key (store key none session) source _
            (record {
              stored_under = h'.stored_under;
              own_key = h'.own_key;
              session_of = h'.session_of;
              users = h'.users;
            })
            n' (stored key none session),
      )
