-- ===== src/Affinity/Tracker/Keeps.antt =====
-- Each operation of the tracker (django_rls_tenants/tenants/affinity.py) beside what it follows.
use django_rls_tenants.Base.Core.{
  ℕ, ◌≡◌, ◌≢◌, ◌&&◌, refl, ◌∙◌, Bool, true, false, not, ◌||◌, Option, none, some, [], ◌==◌, arith,
  Bool-cases, inl, inr, ◌⊎◌,
}
use django_rls_tenants.Gucs.{Tracked, ContextGucs, Agrees, tracked_eq, tracked_eq_iff}
use django_rls_tenants.Affinity.Tracker.{
  SessionGucs, end_transaction, sync_transaction, set_values, forget, suspect_session, end_values,
}
use django_rls_tenants.Affinity.Tracker.Sound.{
  IsSound, IsSound-settled, PointsAgree, PointsAgree-weaken, PointsAgree-true,
}
use django_rls_tenants.Affinity.Server.{View, settled, begun, idle}

module _ (t : SessionGucs) (v : View) (s : IsSound t v) where
  weakened :
      (a b : Bool)
      → v.in_block ≡ true
      → PointsAgree (t.wrote_session || a) (t.wrote_local || b) v.entry t.savepoints v.marks
  weakened a b o =
      PointsAgree-weaken t.wrote_session t.wrote_local a b v.entry t.savepoints v.marks (s.points o)

  -- A session-level write inside a transaction block.
  pub set_values-session :
      (tv : Tracked) (g : ContextGucs)
      → Agrees tv g
      → v.in_block ≡ true
      → IsSound (set_values tv false t) (record v { now = g; kept = g })
  unfolding set_values
  set_values-session tv g a b = record {
    agrees = a;
    in_step = s.in_step;
    at_entry = s.at_entry;
    no_session_write = λ o ws. ground (arith, s.in_step);
    no_local_write = λ o wl. a;
    outside = λ o. refl;
    points = weakened (t.in_transaction && not false) (t.in_transaction && false);
  }

  -- A transaction-local write inside a transaction block.
  pub set_values-local :
      (tv : Tracked) (g : ContextGucs)
      → Agrees tv g
      → v.in_block ≡ true
      → IsSound (set_values tv true t) (record v { now = g })
  unfolding set_values
  set_values-local tv g a b = record {
    agrees = a;
    in_step = s.in_step;
    at_entry = s.at_entry;
    no_session_write = λ o ws. ground (arith, s.no_session_write o);
    no_local_write = λ o wl. ground (arith, s.in_step);
    outside = λ o. ground arith;
    points = weakened (t.in_transaction && not true) (t.in_transaction && true);
  }

  -- A session-level write in autocommit.
  pub set_values-autocommit :
      (tv : Tracked) (g : ContextGucs) (local : Bool)
      → Agrees tv g
      → v.in_block ≡ false
      → IsSound (set_values tv local t) (settled g)
  unfolding set_values
  set_values-autocommit tv g local a b = record {
    agrees = a;
    in_step = s.in_step ∙ b;
    at_entry = λ o. ground arith;
    no_session_write = λ o ws. refl;
    no_local_write = λ o wl. a;
    outside = λ o. refl;
    points = λ o. ground arith;
  }

  -- Forgetting is right whatever the session holds, as far as the belief goes.
  pub forget-IsSound : IsSound (forget t) v
  unfolding forget set_values
  forget-IsSound = record {
    agrees = tt;
    in_step = s.in_step;
    at_entry = s.at_entry;
    no_session_write = λ o ws. ground (arith, s.no_session_write o);
    no_local_write = λ o wl. tt;
    outside = s.outside;
    points = weakened (t.in_transaction && not false) (t.in_transaction && false);
  }

  -- So it is after a local write that the guard has not seen.
  pub forget-local :
      (g : ContextGucs) → v.in_block ≡ true → IsSound (forget t) (record v { now = g })
  unfolding forget set_values
  forget-local g b = record {
    agrees = tt;
    in_step = s.in_step;
    at_entry = s.at_entry;
    no_session_write = λ o ws. ground (arith, s.in_step);
    no_local_write = λ o wl. tt;
    outside = λ o. ground arith;
    points = weakened (t.in_transaction && not false) (t.in_transaction && false);
  }

  -- Code that the guard does not follow has written the GUCs for the session, under the
  -- transaction's local values: what a commit leaves is anything.
  pub suspect_session-IsSound :
      (g : ContextGucs)
      → v.in_block ≡ true
      → IsSound (suspect_session true t) (record v { kept = g })
  unfolding suspect_session
  suspect_session-IsSound g b =
      let e : t.in_transaction ≡ true = s.in_step ∙ b in
      rw (ended e) (record {
        agrees = s.agrees;
        in_step = s.in_step;
        at_entry = s.at_entry;
        no_session_write = λ o ws. ground arith;
        no_local_write = λ o wl. ground arith;
        outside = λ o. ground arith;
        points = λ o. PointsAgree-true t.wrote_session t.wrote_local _ _ _ (s.points o);
      })
    where
      ended :
          t.in_transaction ≡ true
          → suspect_session true t ≡ record t { wrote_session = true; wrote_local = true }
      ended e = rw e

  -- The status shows a transaction block that has just begun.
  pub sync_transaction-begin :
      (status : ℕ)
      → status ≢ idle
      → v.in_block ≡ false
      → IsSound (sync_transaction status t) (begun v.now)
  unfolding sync_transaction
  sync_transaction-begin status h b = rw (follows (ground arith) (s.in_step ∙ b)) (record {
    agrees = s.agrees;
    in_step = refl;
    at_entry = λ o. s.agrees;
    no_session_write = λ o ws. refl;
    no_local_write = λ o wl. s.agrees;
    outside = λ o. refl;
    points = λ o. tt;
  })
    where
      follows :
          (status == idle) ≡ false
          → t.in_transaction ≡ false
          → sync_transaction status t ≡ record t {
            in_transaction = true;
            base = t.values;
            changed = false;
            wrote_local = false;
            wrote_session = false;
            savepoints = [];
          }
      follows p q = rw (p, q)

  ended_as :
      (c : Option Bool) (g : ContextGucs)
      → Agrees (end_values c t) g
      → v.in_block ≡ true
      → IsSound (end_transaction c t) (settled g)
  unfolding end_transaction
  ended_as c g a b = rw (s.in_step ∙ b) (IsSound-settled _ g refl a)

  -- The block has ended by a commit, seen as one.
  pub end_transaction-commit :
      v.in_block ≡ true → IsSound (end_transaction (some true) t) (settled v.kept)
  unfolding end_values
  end_transaction-commit b =
      ended_as (some true) v.kept
        (elim (Bool-cases t.wrote_session) [
          | inl w ↦ elim (Bool-cases t.wrote_local) [
            | inl l ↦ rw (w, l) tt
            | inr l ↦ rw (w, l) (s.no_local_write b l)
          ]
          | inr w ↦ rw w (rw (s.no_session_write b w) (s.at_entry b))
        ])
        b

  pub end_transaction-rollback :
      v.in_block ≡ true → IsSound (end_transaction (some false) t) (settled v.entry)
  unfolding end_values
  end_transaction-rollback b = ended_as (some false) v.entry (s.at_entry b) b

  either :
      (g : ContextGucs)
      → (g ≡ v.kept) ⊎ (g ≡ v.entry)
      → v.in_block ≡ true
      → t.wrote_local ≡ false
      → t.values ≡ t.base
      → Agrees t.values g
  either g (inl k) b l same = rw k (s.no_local_write b l)
  either g (inr e) b l same = rw (e, same) (s.at_entry b)

  -- The block has ended unseen, by a commit or a rollback.
  pub end_transaction-unseen :
      (g : ContextGucs)
      → (g ≡ v.kept) ⊎ (g ≡ v.entry)
      → v.in_block ≡ true
      → IsSound (end_transaction none t) (settled g)
  unfolding end_values
  end_transaction-unseen g c b =
      ended_as none g
        (elim (Bool-cases t.wrote_session) [
          | inl w ↦ elim (Bool-cases t.wrote_local) [
            | inl l ↦ rw (w, l) tt
            | inr l ↦ elim (Bool-cases (tracked_eq t.values t.base)) [
              | inl same ↦ rw (w, l, same) (either g c b l ((tracked_eq_iff _ _).0 same))
              | inr other ↦ rw (w, l, other) tt
            ]
          ]
          | inr w ↦ rw w (elim c [
            | inl k ↦ rw (k ∙ s.no_session_write b w) (s.at_entry b)
            | inr e ↦ rw e (s.at_entry b)
          ])
        ])
        b
