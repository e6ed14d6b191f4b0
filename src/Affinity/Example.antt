-- ===== src/Affinity/Example.antt =====
-- A server and a driver that meet the laws: every command is accepted.
use django_rls_tenants.Base.Core.{
  ℕ, ◌≡◌, refl, ◌⊎◌, Bool, true, false, ◌||◌, [], ◌∷◌, arith, if◌then◌else◌, ◌∙◌, sym, ap,
}
use django_rls_tenants.Gucs.{ContextGucs}
use django_rls_tenants.Affinity.Server.{
  Server, View, Command, begin, commit, rollback, set_config, savepoint, release, rollback_to,
  settled, begun, marks_from, idle, in_error,
}
use django_rls_tenants.Affinity.Connection.{Driver, DriverLaws, returned, Outcome}

unfoldable pub effect : Command → View → View
effect begin v = if v.in_block then v else begun v.now
effect commit v = if v.failed then settled v.entry else settled v.kept
effect rollback v = settled v.entry
effect (set_config g true) v = if v.in_block then record v { now = g } else v
effect (set_config g false) v = if v.in_block then record v { now = g; kept = g } else settled g
effect (savepoint n) v = record v {
  marks = record { name = n; now = v.now; kept = v.kept } ∷ v.marks;
}
effect (release n) v = elim (marks_from n v.marks) [
  | [] ↦ v
  | m ∷ older ↦ record v { marks = older }
]
effect (rollback_to n) v = elim (marks_from n v.marks) [
  | [] ↦ v
  | m ∷ older ↦ record v { failed = false; now = m.now; kept = m.kept; marks = m ∷ older }
]

unfoldable pub server : Server
unfolding effect
server = record {
  Runs = λ c v w. w ≡ effect c v;
  begin_law = λ v w r b. r ∙ rw b refl;
  commit_law = λ v w r b. r ∙ rw b refl;
  commit_failed_law = λ v w r b. r ∙ rw b refl;
  rollback_law = λ v w r. r;
  set_session_law = λ v w g r b. r ∙ rw b refl;
  set_local_law = λ v w g r b. r ∙ rw b refl;
  set_autocommit_law = λ v w g r b. r ∙ rw b refl;
  set_autocommit_local_law = λ v w g r b. r ∙ rw b refl;
  savepoint_law = λ v w n r. r;
  release_law = λ v w n m older r e. r ∙ rw (e, effect) refl;
  rollback_to_law = λ v w n m older r e. r ∙ rw (e, effect) refl;
}

-- The status of a session, as libpq numbers it.
unfoldable pub status_of : View → ℕ
status_of v = if v.in_block then (if v.failed then in_error else 2) else idle

-- With `autocommit` off the driver begins a block first.
unfoldable pub implicit_begin : Bool → View → View
implicit_begin autocommit v = if autocommit || v.in_block then v else begun v.now

abbrev pub driver : Driver
driver = record {
  Session = View;
  status = status_of;
  view = λ v. v;
  send = λ autocommit c v. (returned tt, effect c (implicit_begin autocommit v));
}

begun-effect : (v : View) → v.in_block ≡ false → effect begin v ≡ begun v.now
unfolding effect
begun-effect v b = rw b refl

implicit_begin-none :
    (autocommit : Bool) (v : View)
    → (autocommit ≡ true) ⊎ (v.in_block ≡ true)
    → implicit_begin autocommit v ≡ v
unfolding implicit_begin
implicit_begin-none autocommit v b = ground arith

implicit_begin-begun : (v : View) → v.in_block ≡ false → implicit_begin false v ≡ begun v.now
unfolding implicit_begin
implicit_begin-begun v b = rw b refl

pub driver_laws : DriverLaws driver server
unfolding status_of server
driver_laws = record {
  status_law = λ v. (ground arith, ground arith, ground arith, ground arith);
  send_law = λ ac c v w e b.
      sym (ap (λ (p : Outcome (Unit {0}) × View). p.1) e)
      ∙ ap (effect c) (implicit_begin-none ac v b);
  implicit_begin_law = λ c v w e b. (
    begun v.now,
    sym (begun-effect v b),
    sym (ap (λ (p : Outcome (Unit {0}) × View). p.1) e) ∙ ap (effect c) (implicit_begin-begun v b),
  );
}

abbrev pub tenant_7 : ContextGucs
tenant_7 = record { is_admin = "false"; current_tenant = "7" }

abbrev pub tenant_8 : ContextGucs
tenant_8 = record { is_admin = "false"; current_tenant = "8" }
