-- ===== src/Affinity/Tracker/Savepoints.antt =====
-- The tracker's savepoints (django_rls_tenants/tenants/affinity.py) beside the session's.
use django_rls_tenants.Base.Text.{Text}
use django_rls_tenants.Base.Core.{◌≡◌, refl, true, false, some, List, [], ◌∷◌, arith}
use django_rls_tenants.Gucs.{Tracked}
use django_rls_tenants.Affinity.Tracker.{
  SessionGucs, add_savepoint, follow_savepoint_end, savepoints_from,
}
use django_rls_tenants.Affinity.Tracker.Sound.{IsSound, PointsAgree, PointsAgree-from}
use django_rls_tenants.Affinity.Server.{View, Mark, marks_from}

module _ (t : SessionGucs) (v : View) (s : IsSound t v) where
  pub add_savepoint-IsSound :
      (n : Text)
      → IsSound
          (add_savepoint n t)
          (record v { marks = record { name = n; now = v.now; kept = v.kept } ∷ v.marks })
  unfolding add_savepoint
  add_savepoint-IsSound n = record {
    agrees = s.agrees;
    in_step = s.in_step;
    at_entry = s.at_entry;
    no_session_write = s.no_session_write;
    no_local_write = s.no_local_write;
    outside = s.outside;
    points = λ o. (refl, s.agrees, s.no_session_write o, s.no_local_write o, s.points o);
  }

  -- What the tracker finds for a savepoint is what the session finds.
  found :
      (name : Text) (m : Mark) (older : List Mark)
      → marks_from name v.marks ≡ m ∷ older
      → v.in_block ≡ true
      → PointsAgree t.wrote_session t.wrote_local v.entry
          (savepoints_from name t.savepoints)
          (m ∷ older)
  found name m older f b = rw f at (
      PointsAgree-from name t.wrote_session t.wrote_local v.entry t.savepoints v.marks (s.points b))

  pub rollback_to-IsSound :
      (name : Text) (m : Mark) (older : List Mark)
      → marks_from name v.marks ≡ m ∷ older
      → v.in_block ≡ true
      → IsSound
          (follow_savepoint_end (some name) true t)
          (record v { failed = false; now = m.now; kept = m.kept; marks = m ∷ older })
  unfolding follow_savepoint_end
  rollback_to-IsSound name m older f b = back (savepoints_from name t.savepoints) refl
    where
      back :
          (ps : List (Text × Tracked))
          → savepoints_from name t.savepoints ≡ ps
          → IsSound
              (follow_savepoint_end (some name) true t)
              (record v { failed = false; now = m.now; kept = m.kept; marks = m ∷ older })
      back [] e = absurd (rw e at (found name m older f b))
      back ((n, w) ∷ ps) e =
          let h : PointsAgree t.wrote_session t.wrote_local v.entry ((n, w) ∷ ps) (m ∷ older) =
            rw e at (found name m older f b) in
          rw (e, follow_savepoint_end)
            (record {
              agrees = h.1;
              in_step = s.in_step;
              at_entry = s.at_entry;
              no_session_write = λ o ws. h.2 ws;
              no_local_write = λ o wl. h.3 wl;
              outside = λ o. ground arith;
              points = λ o. h;
            })

  pub release-IsSound :
      (name : Text) (m : Mark) (older : List Mark)
      → marks_from name v.marks ≡ m ∷ older
      → v.in_block ≡ true
      → IsSound (follow_savepoint_end (some name) false t) (record v { marks = older })
  unfolding follow_savepoint_end
  release-IsSound name m older f b = gone (savepoints_from name t.savepoints) refl
    where
      gone :
          (ps : List (Text × Tracked))
          → savepoints_from name t.savepoints ≡ ps
          → IsSound (follow_savepoint_end (some name) false t) (record v { marks = older })
      gone [] e = absurd (rw e at (found name m older f b))
      gone ((n, w) ∷ ps) e =
          let h : PointsAgree t.wrote_session t.wrote_local v.entry ((n, w) ∷ ps) (m ∷ older) =
            rw e at (found name m older f b) in
          rw (e, follow_savepoint_end)
            (record {
              agrees = s.agrees;
              in_step = s.in_step;
              at_entry = s.at_entry;
              no_session_write = s.no_session_write;
              no_local_write = s.no_local_write;
              outside = s.outside;
              points = λ o. h.4;
            })
