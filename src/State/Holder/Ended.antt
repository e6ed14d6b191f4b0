-- ===== src/State/Holder/Ended.antt =====
-- Holders (django_rls_tenants/tenants/state.py) that have ended, and the copies of their context.
use django_rls_tenants.Base.Core.{
  ℕ, ◌≡◌, ◌<◌, refl, Bool, true, false, Option, none, some, List, [], ◌∷◌, arith, inl, inr,
  Option-cases, Bool-cases, if◌then◌else◌,
}
use django_rls_tenants.Gucs.{ContextGucs}
use django_rls_tenants.State.Var.{Var, Reset, done, runtime_error, value_error, set}
use django_rls_tenants.State.Holder.{
  Holders, Entered, differs, values_of, current_live, get_context_gucs, end_holder, end_if_newer,
  end_live_context, new_live, enter_holder, set_context_gucs, reset_context_gucs, after_reset,
  hold_context_gucs, release_context_gucs, after_release, clear_context_gucs,
}

-- Everything that is done to holders: the operations of state.py in a context, and `asgiref`, which
-- copies the variable from one context to another where `!=` says that they differ.
pub data Op : Type 0 where
  enters : ℕ → Option ContextGucs → Bool → Op
  resets releases : ℕ → Entered → Op
  holds clears : ℕ → Op
  copies : ℕ → ℕ → Op

-- `destination != source`, of two values of the variable.
unfoldable pub ne : Holders → Option ℕ → Option ℕ → Bool
unfolding differs
ne s none none = false
ne s none (some h) = true
ne s (some h) source = differs s h source

unfoldable pub copied : ℕ → Option ℕ → Holders → Holders
unfolding ne
copied to source s =
    if ne s (current_live to s) source
    then record s { context_gucs = (set to source s.context_gucs).1 }
    else s

unfoldable pub run_op : Op → Holders → Holders
unfolding copied
run_op (enters ctx values block) s = (set_context_gucs ctx values block s).1
run_op (resets ctx e) s = (reset_context_gucs ctx e s).1
run_op (releases ctx e) s = (release_context_gucs ctx e s).1
run_op (holds ctx) s = (hold_context_gucs ctx s).1
run_op (clears ctx) s = clear_context_gucs ctx s
run_op (copies from to) s = copied to (current_live from s) s

unfoldable pub run_ops : List Op → Holders → Holders
run_ops [] s = s
run_ops (o ∷ os) s = run_ops os (run_op o s)

-- `h` has been made, and has ended.
pub record IsEnded (h : ℕ) (s : Holders) : Type 0 where
  pub made : h < s.serial
  pub over : (s.live h).alive ≡ false

module _ (h : ℕ) where
  end_holder-IsEnded : (s : Holders) (j : ℕ) → IsEnded h s → IsEnded h (end_holder j s)
  unfolding end_holder
  end_holder-IsEnded s j e = ground (arith, e.made, e.over)

  end_if_newer-IsEnded :
      (s : Holders) (o than : Option ℕ) → IsEnded h s → IsEnded h (end_if_newer o than s)
  unfolding end_if_newer
  end_if_newer-IsEnded s none than e = e
  end_if_newer-IsEnded s (some j) than e = ground (arith, end_holder-IsEnded s j e)

  end_live_context-IsEnded :
      (s : Holders) (ctx : ℕ) → IsEnded h s → IsEnded h (end_live_context ctx s)
  unfolding end_live_context
  end_live_context-IsEnded s ctx e = elim (Option-cases (current_live ctx s)) [
    | inl n ↦ rw (n, end_live_context) e
    | inr (j, n) ↦ rw (n, end_live_context) (end_holder-IsEnded s j e)
  ]

  -- The variable is no part of it.
  var-IsEnded :
      (s : Holders) (v : Var (Option ℕ)) → IsEnded h s → IsEnded h (record s { context_gucs = v })
  var-IsEnded s v e = record { made = e.made; over = e.over }

  new_live-IsEnded :
      (s : Holders) (values : Option ContextGucs) (block : Bool)
      → IsEnded h s
      → IsEnded h (new_live values block s).1
  unfolding new_live
  new_live-IsEnded s values block e = ground (arith, e.made, e.over)

  after_reset-IsEnded :
      (s : Holders) (ctx : ℕ) (current : Option ℕ) (j : ℕ) (r : Reset)
      → IsEnded h s
      → IsEnded h (after_reset ctx current j r s).1
  unfolding after_reset
  after_reset-IsEnded s ctx current j done e = end_if_newer-IsEnded s current (some j) e
  after_reset-IsEnded s ctx current j runtime_error e = end_live_context-IsEnded s ctx e
  after_reset-IsEnded s ctx current j value_error e = e

  after_release-IsEnded :
      (s : Holders) (current : Option ℕ) (j : ℕ) (r : Reset)
      → IsEnded h s
      → IsEnded h (after_release current j r s).1
  unfolding after_release
  after_release-IsEnded s current j done e = end_if_newer-IsEnded s current (some j) e
  after_release-IsEnded s current j runtime_error e = e
  after_release-IsEnded s current j value_error e = e

  enter_holder-IsEnded :
      (s : Holders) (ctx j : ℕ) → IsEnded h s → IsEnded h (enter_holder ctx j s).1
  unfolding enter_holder
  enter_holder-IsEnded s ctx j e = var-IsEnded s _ e

  hold_context_gucs-IsEnded :
      (s : Holders) (ctx : ℕ) → IsEnded h s → IsEnded h (hold_context_gucs ctx s).1
  unfolding hold_context_gucs
  hold_context_gucs-IsEnded s ctx e = elim (Option-cases (current_live ctx s)) [
    | inl n ↦
        rw (n, hold_context_gucs)
          (enter_holder-IsEnded (new_live none true s).1 ctx _ (new_live-IsEnded s none true e))
    | inr (j, n) ↦ rw (n, hold_context_gucs) (enter_holder-IsEnded s ctx j e)
  ]

  copied-IsEnded :
      (s : Holders) (to : ℕ) (source : Option ℕ) → IsEnded h s → IsEnded h (copied to source s)
  unfolding copied
  copied-IsEnded s to source e = elim (Bool-cases (ne s (current_live to s) source)) [
    | inl b ↦ rw (b, copied) (var-IsEnded s _ e)
    | inr b ↦ rw (b, copied) e
  ]

  reset-IsEnded :
      (s : Holders) (ctx : ℕ) (t : Entered)
      → IsEnded h (end_holder t.holder s)
      → IsEnded h (reset_context_gucs ctx t s).1
  unfolding reset_context_gucs
  reset-IsEnded s ctx t e = after_reset-IsEnded _ ctx _ _ _ (var-IsEnded _ _ e)

  run_op-IsEnded : (o : Op) (s : Holders) → IsEnded h s → IsEnded h (run_op o s)
  unfolding run_op set_context_gucs release_context_gucs clear_context_gucs
  run_op-IsEnded (enters ctx values block) s e =
      enter_holder-IsEnded (new_live values block s).1 ctx _ (new_live-IsEnded s values block e)
  run_op-IsEnded (resets ctx t) s e = reset-IsEnded s ctx t (end_holder-IsEnded s t.holder e)
  run_op-IsEnded (releases ctx t) s e = after_release-IsEnded _ _ _ _ (var-IsEnded s _ e)
  run_op-IsEnded (holds ctx) s e = hold_context_gucs-IsEnded s ctx e
  run_op-IsEnded (clears ctx) s e = var-IsEnded _ _ (end_live_context-IsEnded s ctx e)
  run_op-IsEnded (copies from to) s e = copied-IsEnded s to (current_live from s) e

  run_ops-IsEnded : (os : List Op) (s : Holders) → IsEnded h s → IsEnded h (run_ops os s)
  unfolding run_ops
  run_ops-IsEnded [] s e = e
  run_ops-IsEnded (o ∷ os) s e = run_ops-IsEnded os (run_op o s) (run_op-IsEnded o s e)

end_holder-over : (s : Holders) (h : ℕ) → h < s.serial → IsEnded h (end_holder h s)
unfolding end_holder
end_holder-over s h m = ground (arith, m)

get_context_gucs-ended :
    (s : Holders) (h ctx : ℕ)
    → IsEnded h s
    → current_live ctx s ≡ some h
    → get_context_gucs ctx s ≡ none
unfolding get_context_gucs values_of
get_context_gucs-ended s h ctx e c = rw c (rw e.over refl)

-- After the reset of a block whose holder exists, whether or not the reset raises, and after any
-- further sequence of entries, resets, holds, releases, clears and copies of the variable between
-- contexts, a context whose variable holds the block's holder reads no values.
pub reset_context_gucs-ends :
    (s : Holders) (ctx : ℕ) (entered : Entered) (os : List Op) (j : ℕ)
    → entered.holder < s.serial
    → current_live j (run_ops os (reset_context_gucs ctx entered s).1) ≡ some entered.holder
    → get_context_gucs j (run_ops os (reset_context_gucs ctx entered s).1) ≡ none
reset_context_gucs-ends s ctx entered os j m c =
    get_context_gucs-ended _ entered.holder j
      (run_ops-IsEnded entered.holder os (reset_context_gucs ctx entered s).1
        (reset-IsEnded entered.holder s ctx entered (end_holder-over s entered.holder m)))
      c
