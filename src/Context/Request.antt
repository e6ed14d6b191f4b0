-- ===== src/Context/Request.antt =====
-- The context of a request (django_rls_tenants/tenants/middleware.py): the decisions of
-- `process_request`, before it writes anything.
use django_rls_tenants.Base.Core.{Bool, true, false, not, ◌&&◌, String, Option, none, if◌then◌else◌}
use django_rls_tenants.Base.Text.{Text}
use django_rls_tenants.Base.Outcome.{Outcome, returned, ◌>>=◌}
use django_rls_tenants.Gucs.{ContextGucs}
use django_rls_tenants.Context.{TenantUser, resolve_user_guc_vars, context_gucs_of}

-- `_Member`, or that the user selects no tenants.
pub data Member (T : Type 0) : Type 0 where
  no_member : Member T
  selects : Option T → Member T

-- What a request is to run in: nothing, or these values with this auto-scope tenant.
pub data RequestScope (T : Type 0) : Type 0 where
  no_scope : RequestScope T
  scoped : ContextGucs → Option T → RequestScope T

-- `_member_of`: `multi_tenant` says that the user is a `MultiTenantUser`, and the last argument is
-- what `_request_tenant_id` does for the request.
unfoldable pub member_of :
    {T : Type 0} → Bool → TenantUser T → Outcome (Option T) → Outcome (Member T)
member_of multi_tenant user request_tenant_id =
    if multi_tenant && not user.is_tenant_admin
    then (request_tenant_id >>= λ t. returned (selects t))
    else returned no_member

-- `None if member is None else member.tenant_id`
abbrev pub selected_of : {T : Type 0} → Member T → Option T
selected_of no_member = none
selected_of (selects t) = t

-- `_scope_tenant_id`
unfoldable pub scope_tenant_id : {T : Type 0} → TenantUser T → Member T → Option T
scope_tenant_id user (selects t) = t
scope_tenant_id user no_member = if user.is_tenant_admin then none else user.rls_tenant_id

module _ {T : Type 0} (str : T → String) where
  -- `_resolve_request_user`, `_context_gucs_of` and `_scope_tenant_id` as `process_request` uses them.
  unfoldable pub scope_of : Text → TenantUser T → Member T → Outcome (RequestScope T)
  unfolding resolve_user_guc_vars context_gucs_of scope_tenant_id
  scope_of prefix user m = do
    variables ← resolve_user_guc_vars str prefix user (selected_of m)
    gucs ← context_gucs_of prefix variables
    returned (scoped gucs (scope_tenant_id user m))

  -- A member without a tenant gets no context.
  abbrev pub scope_of_member : Text → TenantUser T → Member T → Outcome (RequestScope T)
  scope_of_member prefix user (selects none) = returned no_scope
  scope_of_member prefix user m = scope_of prefix user m

  -- `process_request`, up to what it writes.
  unfoldable pub request_scope :
      Text → Bool → Bool → TenantUser T → Outcome (Option T) → Outcome (RequestScope T)
  unfolding member_of scope_of
  request_scope prefix false multi_tenant user request_tenant_id = returned no_scope
  request_scope prefix true multi_tenant user request_tenant_id =
      member_of multi_tenant user request_tenant_id >>= λ m. scope_of_member prefix user m
