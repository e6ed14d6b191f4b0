-- ===== src/State/Holder.antt =====
-- `_Live` holders (django_rls_tenants/tenants/state.py): a holder is known by its serial number,
-- which no other has, and every copy of a context shares it.
pub mod Ended
pub mod Nested
pub mod Start
mod Tests
use django_rls_tenants.Base.Core.{
  ℕ, suc, ◌==◌, Bool, true, false, not, ◌&&◌, ltb, Option, none, some, if◌then◌else◌,
}
use django_rls_tenants.Gucs.{ContextGucs}
use django_rls_tenants.State.Var.{
  Var, Token, Reset, done, runtime_error, value_error, set, reset, update,
}

pub record Live : Type 0 where
  pub values : Option ContextGucs
  pub block : Bool
  pub alive : Bool

-- All holders by serial number, the next number, and the variable `_context_gucs`.
pub record Holders : Type 0 where
  pub live : ℕ → Live
  pub serial : ℕ
  pub context_gucs : Var (Option ℕ)

-- `_ContextGucsToken`
pub record Entered : Type 0 where
  pub token : Token (Option ℕ)
  pub holder : ℕ

-- `self != other` of two holders, which `asgiref` asks before it copies one over another.
unfoldable pub differs : Holders → ℕ → Option ℕ → Bool
differs s self none = true
differs s self (some other) = if self == other then false else not (s.live other).block

unfoldable pub values_of : Holders → Option ℕ → Option ContextGucs
values_of s none = none
values_of s (some h) = if (s.live h).alive then (s.live h).values else none

-- `_get_context_gucs`, `_current_live`
unfoldable pub current_live : ℕ → Holders → Option ℕ
current_live ctx s = s.context_gucs.value ctx

unfoldable pub get_context_gucs : ℕ → Holders → Option ContextGucs
unfolding values_of current_live
get_context_gucs ctx s = values_of s (current_live ctx s)

-- `live.alive = False`
unfoldable pub end_holder : ℕ → Holders → Holders
end_holder h s = record s { live = update s.live h (record (s.live h) { alive = false }) }

-- `live is not than and (than is None or live.serial > than.serial)`
abbrev pub is_newer : ℕ → Option ℕ → Bool
is_newer h none = true
is_newer h (some than) = not (h == than) && ltb than h

unfoldable pub end_if_newer : Option ℕ → Option ℕ → Holders → Holders
unfolding end_holder
end_if_newer none than s = s
end_if_newer (some h) than s = if is_newer h than then end_holder h s else s

unfoldable pub end_live_context : ℕ → Holders → Holders
unfolding end_holder current_live
end_live_context ctx s = elim (current_live ctx s) [ none ↦ s | some h ↦ end_holder h s ]

-- A new holder: `_Live(values, block=block)`.
unfoldable pub new_live : Option ContextGucs → Bool → Holders → ℕ × Holders
new_live values block s = (
  s.serial,
  record s {
    live = update s.live s.serial (record { values = values; block = block; alive = true });
    serial = suc s.serial;
  },
)

-- `_context_gucs.set(holder)`
unfoldable pub enter_holder : ℕ → ℕ → Holders → Entered × Holders
unfolding set
enter_holder ctx h s =
    let (token, v) = set ctx (some h) s.context_gucs in
    (record { token = token; holder = h }, record s { context_gucs = v })

unfoldable pub set_context_gucs : ℕ → Option ContextGucs → Bool → Holders → Entered × Holders
set_context_gucs ctx values block s = let (h, s') = new_live values block s in enter_holder ctx h s'

-- The rest of `_reset_context_gucs`, after the reset of the variable.
unfoldable pub after_reset : ℕ → Option ℕ → ℕ → Reset → Holders → Reset × Holders
after_reset ctx current h done s = (done, end_if_newer current (some h) s)
after_reset ctx current h runtime_error s = (runtime_error, end_live_context ctx s)
after_reset ctx current h value_error s = (value_error, s)

unfoldable pub reset_context_gucs : ℕ → Entered → Holders → Reset × Holders
reset_context_gucs ctx entered s =
    let s' = end_holder entered.holder s in
    let current = current_live ctx s' in
    let (r, v) = reset ctx entered.token s'.context_gucs in
    after_reset ctx current entered.holder r (record s' { context_gucs = v })

unfoldable pub hold_context_gucs : ℕ → Holders → Entered × Holders
hold_context_gucs ctx s = elim (current_live ctx s) [
  | none ↦ let (h, s') = new_live none true s in enter_holder ctx h s'
  | some h ↦ enter_holder ctx h s
]

-- The rest of `_release_context_gucs`.
unfoldable pub after_release : Option ℕ → ℕ → Reset → Holders → Reset × Holders
after_release current h done s = (done, end_if_newer current (some h) s)
after_release current h r s = (r, s)

unfoldable pub release_context_gucs : ℕ → Entered → Holders → Reset × Holders
release_context_gucs ctx held s =
    let (r, v) = reset ctx held.token s.context_gucs in
    after_release (current_live ctx s) held.holder r (record s { context_gucs = v })

unfoldable pub clear_context_gucs : ℕ → Holders → Holders
clear_context_gucs ctx s =
    let s' = end_live_context ctx s in record s' { context_gucs = (set ctx none s'.context_gucs).1 }
