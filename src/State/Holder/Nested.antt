-- ===== src/State/Holder/Nested.antt =====
-- What the end of a block (django_rls_tenants/tenants/state.py) does to the other holders.
use django_rls_tenants.Base.Core.{
  ℕ, ◌==◌, ◌≡◌, ◌∙◌, ap, sym, refl, Bool, true, false, not, ◌&&◌, ltb, Option, none, some, arith,
  inl, inr, Option-cases,
}
use django_rls_tenants.State.Var.{Var, Token, Reset, done, runtime_error, set, reset}
use django_rls_tenants.State.Var.Laws.{reset-set, token-set}
use django_rls_tenants.State.Holder.{
  Holders, Entered, values_of, current_live, get_context_gucs, end_holder, end_if_newer,
  end_live_context, reset_context_gucs, after_reset, hold_context_gucs, release_context_gucs,
  after_release, new_live, enter_holder,
}

-- The holder `j` is current, and its serial number is greater than the one of `own`.
abbrev pub left_open : Option ℕ → ℕ → ℕ → Bool
left_open none own j = false
left_open (some c) own j = j == c && ltb own j

alive-end_if_newer :
    (current : Option ℕ) (own j : ℕ) (s : Holders)
    → ((end_if_newer current (some own) s).live j).alive
      ≡ ((s.live j).alive && not (left_open current own j))
unfolding end_if_newer end_holder
alive-end_if_newer none own j s = ground arith
alive-end_if_newer (some c) own j s = ground arith

alive-end_holder :
    (h j : ℕ) (s : Holders) → ((end_holder h s).live j).alive ≡ ((s.live j).alive && not (j == h))
unfolding end_holder
alive-end_holder h j s = ground arith

after_reset-done :
    (ctx : ℕ) (current : Option ℕ) (h : ℕ) (r : Reset) (s : Holders)
    → r ≡ done
    → after_reset ctx current h r s ≡ (done, end_if_newer current (some h) s)
unfolding after_reset
after_reset-done ctx current h r s e = rw e refl

current_live-end_holder :
    (ctx h : ℕ) (s : Holders) → current_live ctx (end_holder h s) ≡ current_live ctx s
unfolding current_live end_holder
current_live-end_holder ctx h s = refl

reset-done :
    (ctx : ℕ) (t : Token (Option ℕ)) (v : Var (Option ℕ))
    → v.used t.id ≡ false
    → t.context ≡ ctx
    → (reset ctx t v).0 ≡ done
unfolding reset
reset-done ctx t v u c = rw u (ground arith)

-- The reset of a block in the context of its token, which has not been used, raises nothing, and
-- then a holder is alive exactly if it was alive before, is not the block's own and is not a holder
-- with a greater serial number that was current at the reset: a holder that encloses the block
-- stays alive.
pub alive-reset_context_gucs :
    (s : Holders) (ctx : ℕ) (entered : Entered)
    → s.context_gucs.used entered.token.id ≡ false
    → entered.token.context ≡ ctx
    → ((reset_context_gucs ctx entered s).0 ≡ done)
      × ((j : ℕ)
          → ((reset_context_gucs ctx entered s).1.live j).alive ≡ (
              ((s.live j).alive && not (j == entered.holder))
              && not (left_open (current_live ctx s) entered.holder j)))
unfolding reset_context_gucs end_holder
alive-reset_context_gucs s ctx entered u c =
    let own = entered.holder in
    let s' = end_holder own s in
    let v = reset ctx entered.token s'.context_gucs in
    let s'' : Holders = record s' { context_gucs = v.1 } in
    let ok = reset-done ctx entered.token s.context_gucs u c in
    let e = after_reset-done ctx (current_live ctx s') own v.0 s'' ok in
    (
      ap (λ (p : Reset × Holders). p.0) e,
      λ j.
          ap (λ (p : Reset × Holders). (p.1.live j).alive) e
          ∙ alive-end_if_newer (current_live ctx s') own j s''
          ∙ ap (λ (o : Option ℕ). (s''.live j).alive && not (left_open o own j))
              (current_live-end_holder ctx own s)
          ∙ ap (λ (b : Bool). b && not (left_open (current_live ctx s) own j))
              (alive-end_holder own j s),
    )

-- The reset of a block whose token has been used raises a RuntimeError, and its context reads no
-- values afterwards.
pub reset_context_gucs-again :
    (s : Holders) (ctx : ℕ) (entered : Entered)
    → s.context_gucs.used entered.token.id ≡ true
    → ((reset_context_gucs ctx entered s).0 ≡ runtime_error)
      × (get_context_gucs ctx (reset_context_gucs ctx entered s).1 ≡ none)
unfolding reset_context_gucs after_reset reset end_holder end_live_context get_context_gucs
    values_of current_live
reset_context_gucs-again s ctx entered u = elim (Option-cases (current_live ctx s)) [
  | inl n ↦ ground (arith, n)
  | inr (h, n) ↦ ground (arith, n)
]

after_release-done :
    (current : Option ℕ) (h : ℕ) (r : Reset) (s : Holders)
    → r ≡ done
    → after_release current h r s ≡ (done, end_if_newer current (some h) s)
unfolding after_release
after_release-done current h r s e = rw e refl

token-hold :
    (ctx : ℕ) (s : Holders) → (hold_context_gucs ctx s).0.token ≡ (set ctx none s.context_gucs).0
unfolding hold_context_gucs enter_holder new_live
token-hold ctx s = elim (Option-cases (current_live ctx s)) [
  | inl n ↦ rw (n, hold_context_gucs) (token-set ctx (some s.serial) none s.context_gucs)
  | inr (h, n) ↦ rw (n, hold_context_gucs) (token-set ctx (some h) none s.context_gucs)
]

pub current_live-end_if_newer :
    (ctx : ℕ) (o than : Option ℕ) (s : Holders)
    → current_live ctx (end_if_newer o than s) ≡ current_live ctx s
unfolding current_live end_if_newer end_holder
current_live-end_if_newer ctx none than s = refl
current_live-end_if_newer ctx (some h) than s = ground arith

pub seen :
    {ctx : ℕ} (s : Holders) (v : Var (Option ℕ))
    → current_live ctx (record s { context_gucs = v }) ≡ v.value ctx
unfolding current_live
seen s v = refl

-- A scope that holds the context's holder and is released in any state in which its token has not
-- been used raises nothing, makes the holder that was current at its start current again, and ends
-- no holder but one that was current at the release and has a greater serial number than the
-- scope's own.
pub release-hold :
    (ctx : ℕ) (s s' : Holders)
    → s'.context_gucs.used s.context_gucs.next ≡ false
    → ((release_context_gucs ctx (hold_context_gucs ctx s).0 s').0 ≡ done)
      × (current_live ctx (release_context_gucs ctx (hold_context_gucs ctx s).0 s').1
          ≡ current_live ctx s)
      × ((j : ℕ)
          → ((release_context_gucs ctx (hold_context_gucs ctx s).0 s').1.live j).alive ≡ (
              (s'.live j).alive
              && not (left_open (current_live ctx s') (hold_context_gucs ctx s).0.holder j)))
unfolding release_context_gucs
release-hold ctx s s' u =
    let at_once : s.context_gucs.value ctx ≡ current_live ctx s = sym (seen s s.context_gucs) in
    let h = (hold_context_gucs ctx s).0.holder in
    let t = (hold_context_gucs ctx s).0.token in
    let v = reset ctx t s'.context_gucs in
    let s'' : Holders = record s' { context_gucs = v.1 } in
    let fact = reset-set ctx none s.context_gucs s'.context_gucs u in
    let ok : v.0 ≡ done = rw (token-hold ctx s) (fact.0) in
    let back : v.1.value ctx ≡ current_live ctx s = rw (token-hold ctx s) (fact.1 ∙ at_once) in
    let e = after_release-done (current_live ctx s') h v.0 s'' ok in
    (
      ap (λ (p : Reset × Holders). p.0) e,
      ap (λ (p : Reset × Holders). current_live ctx p.1) e
          ∙ current_live-end_if_newer ctx (current_live ctx s') (some h) s''
          ∙ seen s' v.1
          ∙ back,
      λ j.
          ap (λ (p : Reset × Holders). (p.1.live j).alive) e
          ∙ alive-end_if_newer (current_live ctx s') h j s'',
    )
