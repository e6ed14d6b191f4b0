-- ===== src/Affinity/Server.antt =====
-- PostgreSQL, seen from the guard: what one database session holds for the two GUCs, and the
-- documented effect of the commands that change it. PostgreSQL is no part of the repository; the
-- laws of a `Server` are hypotheses, from the manual's pages on SET, BEGIN, COMMIT, ROLLBACK,
-- SAVEPOINT, ROLLBACK TO SAVEPOINT and RELEASE SAVEPOINT.
use django_rls_tenants.Base.Text.{Text, text_eq}
use django_rls_tenants.Base.Core.{ℕ, ◌≡◌, ◌≢◌, Bool, true, false, List, [], ◌∷◌, if◌then◌else◌}
use django_rls_tenants.Gucs.{ContextGucs}

-- A savepoint: its name, and what its transaction held when it was set.
pub record Mark : Type 0 where
  pub name : Text
  pub now : ContextGucs
  pub kept : ContextGucs

-- `now` is what a statement reads, `kept` what a commit would leave, `entry` what a rollback would.
pub record View : Type 0 where
  pub in_block : Bool
  pub failed : Bool
  pub now : ContextGucs
  pub kept : ContextGucs
  pub entry : ContextGucs
  pub marks : List Mark

pub data Command : Type 0 where
  begin commit rollback : Command
  set_config : ContextGucs → Bool → Command
  savepoint release rollback_to : Text → Command

-- The savepoints from the newest one called `name` on.
abbrev pub marks_from : Text → List Mark → List Mark
marks_from name [] = []
marks_from name (m ∷ older) = if text_eq m.name name then m ∷ older else marks_from name older

-- A session outside a transaction block.
abbrev pub settled : ContextGucs → View
settled g = record { in_block = false; failed = false; now = g; kept = g; entry = g; marks = [] }

-- A session at the beginning of a transaction block.
abbrev pub begun : ContextGucs → View
begun g = record { in_block = true; failed = false; now = g; kept = g; entry = g; marks = [] }

-- Transaction statuses of libpq.
abbrev pub idle : ℕ
idle = 0

abbrev pub in_error : ℕ
in_error = 3

abbrev pub connection_bad : ℕ
connection_bad = 4

-- `status` numbers that libpq reports for a session: `idle` outside a block, `in_error` in a failed
-- one, any other in a block that is not.
abbrev pub StatusOf : ℕ → View → Type 0
StatusOf status v =
    (status ≡ idle → v.in_block ≡ false)
    × (status ≢ idle → v.in_block ≡ true)
    × (status ≡ in_error → v.failed ≡ true)
    × (v.in_block ≡ true → status ≢ in_error → v.failed ≡ false)

-- `Runs c v w`: the command `c`, accepted in the session `v`, leaves it as `w`.
pub record Server : Type 1 where
  pub Runs : Command → View → View → Type 0
  pub begin_law : (v w : View) → Runs begin v w → v.in_block ≡ false → w ≡ begun v.now
  pub commit_law : (v w : View) → Runs commit v w → v.failed ≡ false → w ≡ settled v.kept
  -- COMMIT of a failed transaction is a ROLLBACK.
  pub commit_failed_law : (v w : View) → Runs commit v w → v.failed ≡ true → w ≡ settled v.entry
  pub rollback_law : (v w : View) → Runs rollback v w → w ≡ settled v.entry
  pub set_session_law :
      (v w : View) (g : ContextGucs)
      → Runs (set_config g false) v w
      → v.in_block ≡ true
      → w ≡ record v { now = g; kept = g }
  pub set_local_law :
      (v w : View) (g : ContextGucs)
      → Runs (set_config g true) v w
      → v.in_block ≡ true
      → w ≡ record v { now = g }
  -- In autocommit the statement is a transaction of its own.
  pub set_autocommit_law :
      (v w : View) (g : ContextGucs)
      → Runs (set_config g false) v w
      → v.in_block ≡ false
      → w ≡ settled g
  pub set_autocommit_local_law :
      (v w : View) (g : ContextGucs) → Runs (set_config g true) v w → v.in_block ≡ false → w ≡ v
  pub savepoint_law :
      (v w : View) (n : Text)
      → Runs (savepoint n) v w
      → w ≡ record v { marks = record { name = n; now = v.now; kept = v.kept } ∷ v.marks }
  pub release_law :
      (v w : View) (n : Text) (m : Mark) (older : List Mark)
      → Runs (release n) v w
      → marks_from n v.marks ≡ m ∷ older
      → w ≡ record v { marks = older }
  pub rollback_to_law :
      (v w : View) (n : Text) (m : Mark) (older : List Mark)
      → Runs (rollback_to n) v w
      → marks_from n v.marks ≡ m ∷ older
      → w ≡ record v { failed = false; now = m.now; kept = m.kept; marks = m ∷ older }
