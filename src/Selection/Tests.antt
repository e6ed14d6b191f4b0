-- ===== src/Selection/Tests.antt =====
-- A user of the tenants 7 and 8, logged in to a session, whose own tenant is 7.
use django_rls_tenants.Base.Core.{
  ◌≡◌, refl, true, false, Option, none, some, [], ◌∷◌, if◌then◌else◌,
}
use django_rls_tenants.Base.Text.{Text, codes, text_eq}
use django_rls_tenants.Base.Outcome.{returned, raised, permission_denied}
use django_rls_tenants.Selection.{
  Value, str_value, object, PkField, SelectionConfig, User, Request, selected, own,
  request_tenant_id, switch_tenant, clear_tenant_selection, session_key, may_select, may_select_pk,
  among, selectable, selectable_ids, member, is_session_of, selects_tenants, named_tenant_id,
  header_tenant_id, session_tenant_id, raw_tenant_id, select_session,
}
use django_rls_tenants.Selection.Allowed.{IsAllowed, request_tenant_id-IsAllowed}
use django_rls_tenants.Selection.Stored.{
  request_tenant_id-refused, request_tenant_id-switch_tenant,
  request_tenant_id-clear_tenant_selection,
}

abbrev text_field : PkField Text (Unit {0})
text_field = record {
  to_python = λ v. elim v [ str_value s ↦ returned (some s) | object o ↦ returned none ];
  str = λ t. t;
  same = text_eq;
}

abbrev conf : SelectionConfig
conf = record {
  tenant_header = some (codes "X-Tenant");
  tenant_session_key = some (codes "rls_tenant");
}

abbrev member_of_two : User (Unit {0})
member_of_two = record {
  multi_tenant = true;
  is_tenant_admin = false;
  is_authenticated = true;
  pk = some (str_value (codes "1"));
  session_form = some (codes "1");
  rls_tenant_id = some (str_value (codes "7"));
  rls_tenant_ids = str_value (codes "8") ∷ [];
}

abbrev login : Option (Value (Unit {0})) → Text → Option (Value (Unit {0}))
login tenant k =
    if text_eq k session_key
    then some (str_value (codes "1"))
    else if text_eq k (codes "rls_tenant")
    then tenant
    else none

abbrev request : Option (Value (Unit {0})) → Request Text (Unit {0})
request tenant = record {
  headers = λ name. none;
  session = some (login tenant);
  user = some member_of_two;
  vary = none;
  events = [];
}

-- The session's selection of 8 is the tenant of the request.
selects_8 :
    (request_tenant_id text_field conf member_of_two
      (codes "middleware")
      (request (some (str_value (codes "8"))))).0
    ≡ returned (selected (codes "8"))
unfolding request_tenant_id named_tenant_id header_tenant_id session_tenant_id raw_tenant_id
    select_session may_select may_select_pk among selectable selectable_ids member is_session_of
    text_eq
selects_8 = refl

request_tenant_id-IsAllowed_example :
    IsAllowed text_field member_of_two
      (request_tenant_id text_field conf member_of_two
        (codes "middleware")
        (request (some (str_value (codes "8"))))).0
request_tenant_id-IsAllowed_example =
    request_tenant_id-IsAllowed text_field member_of_two conf (codes "middleware")
      (request (some (str_value (codes "8"))))

request_tenant_id-refused_example :
    let (o, r') =
      request_tenant_id text_field conf member_of_two
        (codes "middleware")
        (request (some (str_value (codes "9")))) in
    (o ≡ raised permission_denied)
    × ((request_tenant_id text_field conf member_of_two (codes "middleware") r').0
        ≡ returned (own (some (str_value (codes "7")))))
unfolding is_session_of text_eq may_select may_select_pk among selectable selectable_ids member
request_tenant_id-refused_example =
    request_tenant_id-refused text_field member_of_two conf (codes "rls_tenant")
      (login (some (str_value (codes "9")))) (codes "middleware")
      (request (some (str_value (codes "9")))) (str_value (codes "9"))
      (record { stored_under = refl; own_key = refl; session_of = refl; users = refl }) refl refl
      refl

request_tenant_id-switch_tenant_example :
    let (o, r') = switch_tenant text_field conf (str_value (codes "8")) (request none) in
    (o ≡ returned (codes "8"))
    × ((request_tenant_id text_field conf member_of_two (codes "middleware") r').0
        ≡ returned (selected (codes "8")))
unfolding is_session_of text_eq may_select may_select_pk among selectable selectable_ids member
    selects_tenants
request_tenant_id-switch_tenant_example =
    request_tenant_id-switch_tenant text_field member_of_two conf (codes "rls_tenant") (login none)
      (codes "middleware") (request none) (str_value (codes "8")) (codes "8")
      (record { stored_under = refl; own_key = refl; session_of = refl; users = refl }) refl refl
      refl refl refl refl

request_tenant_id-clear_tenant_selection_example :
    let (o, r') = clear_tenant_selection text_field conf (request (some (str_value (codes "8")))) in
    (o ≡ returned tt)
    × ((request_tenant_id text_field conf member_of_two (codes "middleware") r').0
        ≡ returned (own (some (str_value (codes "7")))))
unfolding is_session_of text_eq
request_tenant_id-clear_tenant_selection_example =
    request_tenant_id-clear_tenant_selection text_field member_of_two conf (codes "rls_tenant")
      (login (some (str_value (codes "8")))) (codes "middleware")
      (request (some (str_value (codes "8"))))
      (record { stored_under = refl; own_key = refl; session_of = refl; users = refl }) refl refl
      refl
