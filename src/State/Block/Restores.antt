-- ===== src/State/Block/Restores.antt =====
-- What the block leaves when it exits.
use django_rls_tenants.Base.Core.{ℕ, ◌≡◌, ◌∙◌, ap, sym, refl, Bool, true, false, Option, none, some}
use django_rls_tenants.Gucs.{ContextGucs}
use django_rls_tenants.State.Var.{Reset, done, set, reset}
use django_rls_tenants.State.Var.Laws.{reset-set, token-set}
use django_rls_tenants.State.Holder.{
  Holders, current_live, set_context_gucs, reset_context_gucs, enter_holder, new_live, end_holder,
  after_reset, end_if_newer,
}
use django_rls_tenants.State.Holder.Nested.{current_live-end_if_newer, seen}
use django_rls_tenants.State.Block.{
  RlsState, enter_block, exit_block, get_current_tenant_id, set_current_tenant_id,
  reset_current_tenant_id, get_rls_context_active, set_rls_context_active, reset_rls_context_active,
}

after_reset-done :
    (ctx : ℕ) (current : Option ℕ) (h : ℕ) (r : Reset) (s : Holders)
    → r ≡ done
    → after_reset ctx current h r s ≡ (done, end_if_newer current (some h) s)
unfolding after_reset
after_reset-done ctx current h r s e = rw e refl

token-set_context_gucs :
    (ctx : ℕ) (values : Option ContextGucs) (block : Bool) (s : Holders)
    → (set_context_gucs ctx values block s).0.token ≡ (set ctx none s.context_gucs).0
unfolding set_context_gucs enter_holder new_live
token-set_context_gucs ctx values block s = token-set ctx (some s.serial) none s.context_gucs

-- The holder's part: the reset succeeds and brings the enclosing holder back.
pub reset-set_context_gucs :
    (ctx : ℕ) (values : Option ContextGucs) (block : Bool) (s s' : Holders)
    → s'.context_gucs.used s.context_gucs.next ≡ false
    → ((reset_context_gucs ctx (set_context_gucs ctx values block s).0 s').0 ≡ done)
      × (current_live ctx (reset_context_gucs ctx (set_context_gucs ctx values block s).0 s').1
          ≡ current_live ctx s)
unfolding reset_context_gucs end_holder
reset-set_context_gucs ctx values block s s' u =
    let k = (set_context_gucs ctx values block s).0 in
    let o = end_holder k.holder s' in
    let v = reset ctx k.token o.context_gucs in
    let s'' : Holders = record o { context_gucs = v.1 } in
    let fact = reset-set ctx none s.context_gucs o.context_gucs u in
    let ok : v.0 ≡ done = rw (token-set_context_gucs ctx values block s) (fact.0) in
    let back : v.1.value ctx ≡ current_live ctx s =
      rw (token-set_context_gucs ctx values block s) (fact.1 ∙ sym (seen s s.context_gucs)) in
    let e = after_reset-done ctx (current_live ctx o) k.holder v.0 s'' ok in
    (
      ap (λ (p : Reset × Holders). p.0) e,
      ap (λ (p : Reset × Holders). current_live ctx p.1) e
          ∙ current_live-end_if_newer ctx (current_live ctx o) (some k.holder) s''
          ∙ seen o v.1
          ∙ back,
    )

module _ {T : Type 0} where
  -- The block's tokens have not been used in `s'`.
  pub record Unused (s s' : RlsState T) : Type 0 where
    pub tenant_id : s'.tenant_id.used s.tenant_id.next ≡ false
    pub active : s'.active.used s.active.next ≡ false
    pub holders : s'.holders.context_gucs.used s.holders.context_gucs.next ≡ false

  -- A block of _rls_state that exits in any state in which its three tokens have not been used
  -- raises nothing and gives its context the tenant id, the active flag and the holder back that it
  -- had at the entry.
  pub exit_block-enter_block :
      (ctx : ℕ) (tenant_id : Option T) (gucs : ContextGucs) (s s' : RlsState T)
      → Unused s s'
      → let (raised, after) = exit_block ctx (enter_block ctx tenant_id gucs s).0 s' in
        (raised ≡ done)
        × (get_current_tenant_id ctx after ≡ get_current_tenant_id ctx s)
        × (get_rls_context_active ctx after ≡ get_rls_context_active ctx s)
        × (current_live ctx after.holders ≡ current_live ctx s.holders)
  unfolding exit_block enter_block get_current_tenant_id set_current_tenant_id
      reset_current_tenant_id get_rls_context_active set_rls_context_active reset_rls_context_active
  exit_block-enter_block ctx tenant_id gucs s s' u =
      let h = reset-set_context_gucs ctx (some gucs) true s.holders s'.holders u.holders in
      let t = reset-set ctx tenant_id s.tenant_id s'.tenant_id u.tenant_id in
      let a = reset-set ctx true s.active s'.active u.active in
      (rw (h.0) (rw (t.0) (rw (a.0) refl)), t.1, a.1, h.1)
