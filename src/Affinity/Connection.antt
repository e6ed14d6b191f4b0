-- ===== src/Affinity/Connection.antt =====
-- One Django connection, its driver session and the guard's tracker, and actions on them that may
-- raise. The driver is no part of the repository: `Driver` is what the guard uses of it.
use django_rls_tenants.Base.Core.{ℕ, ◌≡◌, ◌⊎◌, Bool, true, false, Option, List}
use django_rls_tenants.Base.Text.{Text}
pub use django_rls_tenants.Base.Outcome.{
  Error, database_error, runtime_error, exception, base_exception, Outcome, returned, raised,
}
use django_rls_tenants.Affinity.Server.{Command, View, Server, StatusOf, begin}
use django_rls_tenants.Affinity.Tracker.{SessionGucs}

-- The settings that the guard reads (`rls_tenants_config`).
pub record Config : Type 0 where
  pub databases : List Text
  pub use_local_set : Bool
  pub guc_is_admin : Text
  pub guc_current_tenant : Text

-- The driver: `status` is what libpq reports, `view` what the session holds, and `send` runs a
-- command, which may raise. With `autocommit` off the driver sends BEGIN before a command that
-- would run outside a transaction block.
pub record Driver : Type 1 where
  pub Session : Type 0
  pub status : Session → ℕ
  pub view : Session → View
  pub send : Bool → Command → Session → Outcome (Unit {0}) × Session

-- What the guard relies on.
pub record DriverLaws (d : Driver) (S : Server) : Type 0 where
  pub status_law : (s : d.Session) → StatusOf (d.status s) (d.view s)
  pub send_law :
      (autocommit : Bool) (c : Command) (s s' : d.Session)
      → d.send autocommit c s ≡ (returned tt, s')
      → (autocommit ≡ true) ⊎ ((d.view s).in_block ≡ true)
      → S.Runs c (d.view s) (d.view s')
  pub implicit_begin_law :
      (c : Command) (s s' : d.Session)
      → d.send false c s ≡ (returned tt, s')
      → (d.view s).in_block ≡ false
      → (u : View) × S.Runs begin (d.view s) u × S.Runs c u (d.view s')

-- A Django connection with the session behind it: `connection.connection` is `raw`, `depth` the
-- depth of the library's own writes on this thread.
pub record World (d : Driver) : Type 0 where
  pub alias : Text
  pub raw : Option ℕ
  pub session : d.Session
  pub autocommit : Bool
  pub needs_rollback : Bool
  pub tracker : Option SessionGucs
  pub depth : ℕ

-- What an action on a connection returns: its outcome and the connection after it.
abbrev pub Ran : Driver → Type 0 → Type 0
Ran d A = Outcome A × World d

-- Statements in sequence: an exception skips the rest.
abbrev pub then_do : {d : Driver} {A B : Type 0} → Ran d A → (A → World d → Ran d B) → Ran d B
then_do (returned a, w) f = f a w
then_do (raised e, w) f = (raised e, w)
