-- ===== src/Context/Scoped.antt =====
-- The two halves of a request's context (django_rls_tenants/tenants/middleware.py) are of one tenant.
use mathlib.Core.Path.{subst}
use django_rls_tenants.Base.Core.{
  ◌≡◌, sym, refl, Bool, true, false, not, ◌&&◌, String, Option, none, some, if◌then◌else◌, [], ◌∷◌,
}
use django_rls_tenants.Base.Text.{Text}
use django_rls_tenants.Base.Outcome.{
  Outcome, returned, raised, ◌>>=◌, Post, post, post_raised, Post-returned,
}
use django_rls_tenants.Gucs.{ContextGucs, for_tenant}
use django_rls_tenants.Context.{
  TenantUser, admin_name, tenant_name, tenant_variables, resolve_user_guc_vars, context_gucs_of,
}
use django_rls_tenants.Context.Values.{context_gucs_of-two, gucs_for}
use django_rls_tenants.Context.Request.{
  no_member, selects, RequestScope, no_scope, scoped, member_of, scope_tenant_id, scope_of,
  scope_of_member, request_scope,
}

module _ {T : Type 0} (str : T → String) where
  -- The values are those of the scope's tenant.
  abbrev pub IsOfOne : RequestScope T → Type 0
  IsOfOne no_scope = Unit
  IsOfOne (scoped gucs t) = gucs ≡ gucs_for str t

  two-Post :
      (prefix : Text) (admin tenant : String) (t : Option T)
      → record { is_admin = admin; current_tenant = tenant } ≡ gucs_for str t
      → Post IsOfOne (
          context_gucs_of prefix ((tenant_name prefix, tenant) ∷ (admin_name prefix, admin) ∷ [])
          >>= λ gucs. returned (scoped gucs t))
  two-Post prefix admin tenant t e =
      subst (λ o. Post IsOfOne (o >>= λ gucs. returned (scoped gucs t)))
        (sym (context_gucs_of-two prefix admin tenant)) (post e)

  own-Post :
      (prefix : Text) (admin : Bool) (own : Option T)
      → Post IsOfOne (
          (if admin
            then returned ((tenant_name prefix, "") ∷ (admin_name prefix, "true") ∷ [])
            else tenant_variables str prefix own)
          >>= λ variables. context_gucs_of prefix variables >>= λ gucs.
              returned (scoped gucs (if admin then none else own)))
  unfolding for_tenant
  own-Post prefix true own = two-Post prefix "true" "" none refl
  own-Post prefix false none = post_raised
  own-Post prefix false (some t) = two-Post prefix "false" (str t) (some t) refl

  selected-Post :
      (prefix : Text) (user : TenantUser T) (t : T)
      → user.is_tenant_admin ≡ false
      → Post IsOfOne (scope_of str prefix user (selects (some t)))
  unfolding scope_of resolve_user_guc_vars scope_tenant_id for_tenant
  selected-Post prefix user t e = rw e (two-Post prefix "false" (str t) (some t) refl)

  member-Post :
      (prefix : Text) (multi_tenant : Bool) (user : TenantUser T) (selected : Outcome (Option T))
      → Post IsOfOne
          (member_of multi_tenant user selected >>= λ m. scope_of_member str prefix user m)
  unfolding member_of scope_of resolve_user_guc_vars scope_tenant_id
  member-Post prefix multi_tenant user selected =
      of (multi_tenant && not user.is_tenant_admin) (no_admin multi_tenant user.is_tenant_admin)
    where
      no_admin : (a b : Bool) → a && not b ≡ true → b ≡ false
      no_admin true true h = cc
      no_admin true false h = refl
      no_admin false b h = cc

      chosen :
          (o : Outcome (Option T))
          → user.is_tenant_admin ≡ false
          → Post IsOfOne
              ((o >>= λ t. returned (selects t)) >>= λ m. scope_of_member str prefix user m)
      chosen (returned none) e = post tt
      chosen (returned (some t)) e = selected-Post prefix user t e
      chosen (raised x) e = post_raised

      of :
          (c : Bool)
          → (c ≡ true → user.is_tenant_admin ≡ false)
          → Post IsOfOne (
              (if c then (selected >>= λ t. returned (selects t)) else returned no_member) >>= λ m.
              scope_of_member str prefix user m)
      of true h = chosen selected (h refl)
      of false h = own-Post prefix user.is_tenant_admin user.rls_tenant_id

  -- For every request, whatever its user is and whichever tenant it selects, when process_request
  -- decides on a context, the GUC values of that context are those of the tenant that it scopes
  -- querysets to: the admin values where the scope has no tenant, and otherwise the text of that
  -- tenant.
  pub request_scope-IsOfOne :
      (prefix : Text) (authenticated multi_tenant : Bool) (user : TenantUser T)
      → (selected : Outcome (Option T)) (gucs : ContextGucs) (t : Option T)
      → request_scope str prefix authenticated multi_tenant user selected ≡ returned (scoped gucs t)
      → gucs ≡ gucs_for str t
  unfolding request_scope
  request_scope-IsOfOne prefix authenticated multi_tenant user selected gucs t h =
      Post-returned (subst (λ o. Post IsOfOne o) h (of authenticated))
    where
      of : (b : Bool) → Post IsOfOne (request_scope str prefix b multi_tenant user selected)
      of false = post tt
      of true = member-Post prefix multi_tenant user selected
