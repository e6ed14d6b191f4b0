-- ===== src/Affinity/Tracker.antt =====
-- `_SessionGUCs` of django_rls_tenants/tenants/affinity.py: what the guard knows of one database
-- session. The slot `read_status` reads the transaction status of the driver's connection; the
-- model takes the status as an argument instead. `savepoints` has the newest first, the source's
-- list reversed.
pub mod Keeps
pub mod Savepoints
pub mod Sound
pub mod Session
mod Tests
use django_rls_tenants.Base.Text.{Text, text_eq}
use django_rls_tenants.Base.Core.{
  ℕ, Bool, true, false, not, ◌&&◌, ◌||◌, Option, none, some, List, [], ◌∷◌, ◌==◌, if◌then◌else◌,
}
use django_rls_tenants.Affinity.Server.{idle, in_error}
use django_rls_tenants.Gucs.{Tracked, unknown, tracked_eq}

pub record SessionGucs : Type 0 where
  pub raw : Option ℕ
  pub values : Tracked
  pub in_transaction : Bool
  pub base : Tracked
  pub changed : Bool
  pub wrote_local : Bool
  pub wrote_session : Bool
  pub savepoints : List (Text × Tracked)

-- `__init__`
abbrev pub fresh : SessionGucs
fresh = record {
  raw = none;
  values = unknown;
  in_transaction = false;
  base = unknown;
  changed = false;
  wrote_local = false;
  wrote_session = false;
  savepoints = [];
}

unfoldable pub attach : Option ℕ → Tracked → SessionGucs → SessionGucs
attach raw values self = record self {
  raw = raw;
  values = values;
  in_transaction = false;
  base = values;
  changed = false;
  wrote_local = false;
  wrote_session = false;
  savepoints = [];
}

-- `committed is False`
abbrev pub is_false : Option Bool → Bool
is_false (some false) = true
is_false _ = false

-- `committed is None`
abbrev pub is_none : Option Bool → Bool
is_none none = true
is_none (some _) = false

-- The values that the end of a transaction leaves.
unfoldable pub end_values : Option Bool → SessionGucs → Tracked
end_values committed self =
    if is_false committed || not self.wrote_session
    then self.base
    else if self.wrote_local || (is_none committed && not (tracked_eq self.values self.base))
    then unknown
    else self.values

unfoldable pub end_transaction : Option Bool → SessionGucs → SessionGucs
unfolding end_values
end_transaction committed self =
    if self.in_transaction
    then record self { values = end_values committed self; in_transaction = false; savepoints = [] }
    else record self { savepoints = [] }

-- The status is returned too; the caller of the model has it at hand.
unfoldable pub sync_transaction : ℕ → SessionGucs → SessionGucs
unfolding end_transaction
sync_transaction status self =
    if status == idle
    then (if self.in_transaction then end_transaction none self else self)
    else if not self.in_transaction
    then record self {
      in_transaction = true;
      base = self.values;
      changed = false;
      wrote_local = false;
      wrote_session = false;
      savepoints = [];
    }
    else self

unfoldable pub set_values : Tracked → Bool → SessionGucs → SessionGucs
set_values values local self = record self {
  values = values;
  changed = self.changed || (not (tracked_eq values self.values) && self.in_transaction);
  wrote_local = self.wrote_local || (self.in_transaction && local);
  wrote_session = self.wrote_session || (self.in_transaction && not local);
}

unfoldable pub forget : SessionGucs → SessionGucs
unfolding set_values
forget self = set_values unknown false self

unfoldable pub suspect_session : Bool → SessionGucs → SessionGucs
unfolding forget
suspect_session under_local_values self =
    if self.in_transaction && under_local_values
    then record self { wrote_session = true; wrote_local = true }
    else forget self

-- The savepoints from the newest one called `name` on, `[]` if there is none: `savepoint_index`,
-- as the rest of the list instead of a position.
unfoldable pub savepoints_from : Text → List (Text × Tracked) → List (Text × Tracked)
savepoints_from name [] = []
savepoints_from name ((n, v) ∷ older) =
    if text_eq n name then (n, v) ∷ older else savepoints_from name older

-- `tracker.savepoints.append((name, tracker.values))`
unfoldable pub add_savepoint : Text → SessionGucs → SessionGucs
add_savepoint name tracker = record tracker {
  savepoints = (name, tracker.values) ∷ tracker.savepoints;
}

-- `_follow_savepoint_end`
unfoldable pub follow_savepoint_end : Option Text → Bool → SessionGucs → SessionGucs
unfolding forget savepoints_from
follow_savepoint_end none rolled_back tracker = forget tracker
follow_savepoint_end (some name) rolled_back tracker =
    elim (savepoints_from name tracker.savepoints) [
      | [] ↦ if tracker.changed then forget tracker else tracker
      | (n, v) ∷ older ↦
          if rolled_back
          then record tracker { values = v; savepoints = (n, v) ∷ older }
          else record tracker { savepoints = older }
    ]

-- `_follow_end`, after the driver's commit or rollback: `before` and `after` are the statuses that
-- the driver reported around it.
unfoldable pub follow_end : ℕ → ℕ → Option Bool → SessionGucs → SessionGucs
unfolding forget end_transaction
follow_end before after committed tracker =
    if not (before == idle) && after == idle
    then end_transaction (if before == in_error then some false else committed) tracker
    else if not (before == after)
    then forget tracker
    else tracker
