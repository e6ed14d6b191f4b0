-- ===== src/State/Block/Tests.antt =====
-- A block of tenant 7 in context 0, with a block of tenant 8 left open inside it.
use django_rls_tenants.Base.Core.{ℕ, ◌≡◌, refl, false, none, some}
use django_rls_tenants.State.Var.{done, set}
use django_rls_tenants.State.Holder.{current_live, set_context_gucs, enter_holder, new_live}
use django_rls_tenants.State.Holder.Start.{start, tenant_7}
use django_rls_tenants.State.Block.{
  RlsState, enter_block, exit_block, get_current_tenant_id, get_rls_context_active,
  set_current_tenant_id, set_rls_context_active,
}
use django_rls_tenants.State.Block.Restores.{exit_block-enter_block}

abbrev outside : RlsState ℕ
outside = record {
  tenant_id = record { value = λ ctx. none; used = λ i. false; next = 0 };
  active = record { value = λ ctx. false; used = λ i. false; next = 0 };
  holders = start;
}

abbrev inside : RlsState ℕ
inside = (enter_block 0 (some 8) tenant_7 (enter_block 0 (some 7) tenant_7 outside).1).1

exit_block-enter_block_example :
    let (raised, after) = exit_block 0 (enter_block 0 (some 7) tenant_7 outside).0 inside in
    (raised ≡ done)
    × (get_current_tenant_id 0 after ≡ none)
    × (get_rls_context_active 0 after ≡ false)
    × (current_live 0 after.holders ≡ none)
unfolding enter_block set_context_gucs enter_holder new_live set current_live get_current_tenant_id
    get_rls_context_active set_current_tenant_id set_rls_context_active
exit_block-enter_block_example =
    exit_block-enter_block 0 (some 7) tenant_7 outside inside
      (record { tenant_id = refl; active = refl; holders = refl })
