-- ===== src/State/Holder/Tests.antt =====
-- Holders of a request's context 0, which a worker thread's context 1 has copied.
use django_rls_tenants.Base.Core.{ℕ, ◌==◌, ◌≡◌, refl, true, not, ◌&&◌, none, some, [], ◌∷◌, arith}
use django_rls_tenants.State.Var.{done, runtime_error, set, reset}
use django_rls_tenants.State.Holder.{
  Holders, Entered, current_live, get_context_gucs, set_context_gucs, reset_context_gucs,
  enter_holder, new_live, after_reset, end_holder, end_if_newer, differs, hold_context_gucs,
  release_context_gucs,
}
use django_rls_tenants.State.Holder.Ended.{
  enters, copies, run_op, run_ops, ne, copied, reset_context_gucs-ends,
}
use django_rls_tenants.State.Holder.Nested.{
  left_open, alive-reset_context_gucs, reset_context_gucs-again, release-hold,
}
use django_rls_tenants.State.Holder.Start.{start, tenant_7}

abbrev block_7 : Entered × Holders
block_7 = set_context_gucs 0 (some tenant_7) true start

-- A block inside it that nothing has closed.
abbrev inner : Entered × Holders
inner = set_context_gucs 0 none true block_7.1

abbrev shared : Holders
shared = run_op (copies 0 1) block_7.1

reset_context_gucs-ends_example :
    get_context_gucs 1 (
      run_ops
        (enters 2 (some tenant_7) true ∷ copies 1 3 ∷ [])
        (reset_context_gucs 0 block_7.0 shared).1)
    ≡ none
unfolding set_context_gucs enter_holder new_live set run_op run_ops copied ne reset_context_gucs
    after_reset reset end_holder end_if_newer current_live differs
reset_context_gucs-ends_example =
    reset_context_gucs-ends shared 0 block_7.0 (enters 2 (some tenant_7) true ∷ copies 1 3 ∷ []) 1
      (omega arith) refl

alive-reset_context_gucs_example :
    ((reset_context_gucs 0 block_7.0 inner.1).0 ≡ done)
    × ((j : ℕ)
        → ((reset_context_gucs 0 block_7.0 inner.1).1.live j).alive ≡ (
            ((inner.1.live j).alive && not (j == block_7.0.holder))
            && not (left_open (current_live 0 inner.1) block_7.0.holder j)))
unfolding set_context_gucs enter_holder new_live set reset_context_gucs after_reset reset end_holder
    end_if_newer current_live
alive-reset_context_gucs_example = alive-reset_context_gucs inner.1 0 block_7.0 refl refl

abbrev twice : Holders
twice = (reset_context_gucs 0 block_7.0 block_7.1).1

reset_context_gucs-again_example :
    ((reset_context_gucs 0 block_7.0 twice).0 ≡ runtime_error)
    × (get_context_gucs 0 (reset_context_gucs 0 block_7.0 twice).1 ≡ none)
unfolding set_context_gucs enter_holder new_live set reset_context_gucs after_reset reset end_holder
    end_if_newer current_live
reset_context_gucs-again_example = reset_context_gucs-again twice 0 block_7.0 refl

-- A scope over the block that leaves another one open.
abbrev left : Holders
left = (set_context_gucs 0 none true (hold_context_gucs 0 block_7.1).1).1

release-hold_example :
    ((release_context_gucs 0 (hold_context_gucs 0 block_7.1).0 left).0 ≡ done)
    × (current_live 0 (release_context_gucs 0 (hold_context_gucs 0 block_7.1).0 left).1
        ≡ current_live 0 block_7.1)
    × ((j : ℕ)
        → ((release_context_gucs 0 (hold_context_gucs 0 block_7.1).0 left).1.live j).alive ≡ (
            (left.live j).alive
            && not (left_open (current_live 0 left) (hold_context_gucs 0 block_7.1).0.holder j)))
unfolding set_context_gucs enter_holder new_live set hold_context_gucs current_live
release-hold_example = release-hold 0 block_7.1 left refl
