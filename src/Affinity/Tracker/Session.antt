-- ===== src/Affinity/Tracker/Session.antt =====
-- The tracker beside the session that it follows: one step for each thing that the library, Django
-- or code that the guard cannot see does to the session, with what the guard records of it.
use django_rls_tenants.Base.Text.{Text}
use django_rls_tenants.Base.Core.{
  ℕ, ◌≡◌, refl, ◌≢◌, ◌⊎◌, inl, inr, ◌∙◌, ap, if◌then◌else◌, Bool-cases, Bool, true, false, Option,
  none, some, List, ◌∷◌, ◌==◌, arith,
}
use django_rls_tenants.Gucs.{ContextGucs, Tracked, Agrees, unknown}
use django_rls_tenants.Affinity.Tracker.{
  SessionGucs, end_transaction, sync_transaction, set_values, forget, suspect_session,
  add_savepoint, follow_savepoint_end, follow_end, attach, fresh,
}
use django_rls_tenants.Affinity.Tracker.Sound.{IsSound, IsSound-settled}
use django_rls_tenants.Affinity.Tracker.Keeps.{
  set_values-session, set_values-local, set_values-autocommit, forget-local,
  suspect_session-IsSound, sync_transaction-begin, end_transaction-commit, end_transaction-rollback,
  end_transaction-unseen,
}
use django_rls_tenants.Affinity.Tracker.Savepoints.{
  add_savepoint-IsSound, rollback_to-IsSound, release-IsSound,
}
use django_rls_tenants.Affinity.Server.{
  idle, in_error, View, Mark, Server, begin, commit, rollback, set_config, savepoint, release,
  rollback_to, marks_from, StatusOf, settled,
}

module _ (S : Server) where
  pub data Step : SessionGucs → View → SessionGucs → View → Type 0 where
    -- BEGIN, the driver's own or a statement's; the status shows it before anything else is done.
    begins :
        {t : SessionGucs} {v w : View} (status : ℕ)
        → S.Runs begin v w
        → v.in_block ≡ false
        → status ≢ idle
        → Step t v (sync_transaction status t) w
    -- The library's own write, recorded by `writing`.
    writes :
        {t : SessionGucs} {v w : View} (values : Tracked) (g : ContextGucs) (local : Bool)
        → Agrees values g
        → S.Runs (set_config g local) v w
        → (v.in_block ≡ true) ⊎ (local ≡ false)
        → Step t v (set_values values local t) w
    -- Code that the guard does not follow has written the GUCs, for the session or not, and what
    -- the guard recorded is `forget`.
    written_unseen :
        {t : SessionGucs} {v w : View} (g : ContextGucs) (local : Bool)
        → S.Runs (set_config g local) v w
        → (v.in_block ≡ true) ⊎ (local ≡ false)
        → Step t v (forget t) w
    -- Such code has written them for the session and then put back, locally to the transaction,
    -- what its statements were reading.
    written_under :
        {t : SessionGucs} {v u w : View} (g : ContextGucs)
        → v.in_block ≡ true
        → S.Runs (set_config g false) v u
        → S.Runs (set_config v.now true) u w
        → Step t v (suspect_session true t) w
    -- A commit or rollback that Django's connection makes, or a statement does: `before` and
    -- `after` are the statuses around it.
    commits :
        {t : SessionGucs} {v w : View} (before : ℕ)
        → S.Runs commit v w
        → v.in_block ≡ true
        → StatusOf before v
        → Step t v (follow_end before idle (some true) t) w
    rolls_back :
        {t : SessionGucs} {v w : View} (before : ℕ)
        → S.Runs rollback v w
        → v.in_block ≡ true
        → StatusOf before v
        → Step t v (follow_end before idle (some false) t) w
    -- A driver cursor has ended the transaction; the guard sees the status later.
    ends_unseen :
        {t : SessionGucs} {v w : View}
        → (S.Runs commit v w × (v.failed ≡ false)) ⊎ S.Runs rollback v w
        → v.in_block ≡ true
        → Step t v (sync_transaction idle t) w
    sets_savepoint :
        {t : SessionGucs} {v w : View} (n : Text)
        → S.Runs (savepoint n) v w
        → Step t v (add_savepoint n t) w
    rolls_back_to :
        {t : SessionGucs} {v w : View} (n : Text) (m : Mark) (older : List Mark)
        → S.Runs (rollback_to n) v w
        → v.in_block ≡ true
        → marks_from n v.marks ≡ m ∷ older
        → Step t v (follow_savepoint_end (some n) true t) w
    releases :
        {t : SessionGucs} {v w : View} (n : Text) (m : Mark) (older : List Mark)
        → S.Runs (release n) v w
        → v.in_block ≡ true
        → marks_from n v.marks ≡ m ∷ older
        → Step t v (follow_savepoint_end (some n) false t) w
    -- A statement fails, and the block with it.
    fails :
        {t : SessionGucs} {v : View} → v.in_block ≡ true → Step t v t (record v { failed = true })

  pub data Reach (t : SessionGucs) (v : View) : SessionGucs → View → Type 0 where
    here : Reach t v t v
    next :
        {t' t'' : SessionGucs} {v' v'' : View}
        → Reach t v t' v'
        → Step t' v' t'' v''
        → Reach t v t'' v''

  pub written-IsSound :
      (t : SessionGucs) (v w : View) (s : IsSound t v) (values : Tracked) (g : ContextGucs)
      (local : Bool)
      → Agrees values g
      → S.Runs (set_config g local) v w
      → (v.in_block ≡ true) ⊎ (local ≡ false)
      → IsSound (set_values values local t) w
  written-IsSound t v w s values g local a r b = go local r b (Bool-cases v.in_block)
    where
      go :
          (local : Bool)
          → S.Runs (set_config g local) v w
          → (v.in_block ≡ true) ⊎ (local ≡ false)
          → (v.in_block ≡ true) ⊎ (v.in_block ≡ false)
          → IsSound (set_values values local t) w
      go true r b (inl i) = rw (S.set_local_law v w g r i) (set_values-local t v s values g a i)
      go true r b (inr o) = absurd (ground arith)
      go false r b (inl i) =
          rw (S.set_session_law v w g r i) (set_values-session t v s values g a i)
      go false r b (inr o) =
          rw (S.set_autocommit_law v w g r o) (set_values-autocommit t v s values g false a o)

  -- `forget` after a write that was not for the session is right too.
  forgotten-IsSound :
      (t : SessionGucs) (v w : View) (s : IsSound t v) (g : ContextGucs) (local : Bool)
      → S.Runs (set_config g local) v w
      → (v.in_block ≡ true) ⊎ (local ≡ false)
      → IsSound (forget t) w
  unfolding forget
  forgotten-IsSound t v w s g true r b = elim b [
    | inl i ↦ rw (S.set_local_law v w g r i) (forget-local t v s g i)
    | inr o ↦ absurd (ground arith)
  ]
  forgotten-IsSound t v w s g false r b = written-IsSound t v w s unknown g false tt r b

  -- The status was not idle before the end of a block.
  ended_block :
      (t : SessionGucs) (v : View) (before : ℕ) (c : Option Bool)
      → v.in_block ≡ true
      → StatusOf before v
      → follow_end before idle c t
        ≡ end_transaction (if before == in_error then some false else c) t
  unfolding follow_end
  ended_block t v before c b h = ground (arith, h.0)

  pub committed-IsSound :
      (t : SessionGucs) (v w : View) (s : IsSound t v) (before : ℕ)
      → S.Runs commit v w
      → v.in_block ≡ true
      → StatusOf before v
      → IsSound (follow_end before idle (some true) t) w
  committed-IsSound t v w s before r b h =
      rw (ended_block t v before (some true) b h) (elim (Bool-cases (before == in_error)) [
        | inl e ↦
            rw (e, S.commit_failed_law v w r (h.2 (ground arith)))
              (end_transaction-rollback t v s b)
        | inr e ↦ rw (e, S.commit_law v w r (h.3 b (ground arith))) (end_transaction-commit t v s b)
      ])

  pub rolled_back-IsSound :
      (t : SessionGucs) (v w : View) (s : IsSound t v) (before : ℕ)
      → S.Runs rollback v w
      → v.in_block ≡ true
      → StatusOf before v
      → IsSound (follow_end before idle (some false) t) w
  rolled_back-IsSound t v w s before r b h =
      rw (ended_block t v before (some false) b h, S.rollback_law v w r)
        (elim (Bool-cases (before == in_error)) [
          | inl e ↦ rw e (end_transaction-rollback t v s b)
          | inr e ↦ rw e (end_transaction-rollback t v s b)
        ])

  ended_sync :
      (t : SessionGucs) → t.in_transaction ≡ true → sync_transaction idle t ≡ end_transaction none t
  unfolding sync_transaction
  ended_sync t e = rw e

  ended_unseen-IsSound :
      (t : SessionGucs) (v w : View) (s : IsSound t v)
      → (S.Runs commit v w × (v.failed ≡ false)) ⊎ S.Runs rollback v w
      → v.in_block ≡ true
      → IsSound (sync_transaction idle t) w
  ended_unseen-IsSound t v w s r b = rw (ended_sync t (s.in_step ∙ b)) (elim r [
    | inl (c, ok) ↦ rw (S.commit_law v w c ok) (end_transaction-unseen t v s v.kept (inl refl) b)
    | inr c ↦ rw (S.rollback_law v w c) (end_transaction-unseen t v s v.entry (inr refl) b)
  ])

  -- A write for the session under values that are put back locally.
  under_local-IsSound :
      (t : SessionGucs) (v u w : View) (s : IsSound t v) (g : ContextGucs)
      → v.in_block ≡ true
      → u ≡ record v { now = g; kept = g }
      → S.Runs (set_config v.now true) u w
      → IsSound (suspect_session true t) w
  under_local-IsSound t v u w s g b e r =
      rw (S.set_local_law u w v.now r (ap (λ (x : View). x.in_block) e ∙ b), e)
        (suspect_session-IsSound t v s g b)

  pub Step-IsSound :
      {t t' : SessionGucs} {v v' : View} → Step t v t' v' → IsSound t v → IsSound t' v'
  Step-IsSound (begins {t} {v} {w} status r b h) s =
      rw (S.begin_law v w r b) (sync_transaction-begin t v s status h b)
  Step-IsSound (writes {t} {v} {w} values g local a r b) s =
      written-IsSound t v w s values g local a r b
  Step-IsSound (written_unseen {t} {v} {w} g local r b) s = forgotten-IsSound t v w s g local r b
  Step-IsSound (written_under {t} {v} {u} {w} g b r r') s =
      under_local-IsSound t v u w s g b (S.set_session_law v u g r b) r'
  Step-IsSound (commits {t} {v} {w} before r b h) s = committed-IsSound t v w s before r b h
  Step-IsSound (rolls_back {t} {v} {w} before r b h) s = rolled_back-IsSound t v w s before r b h
  Step-IsSound (ends_unseen {t} {v} {w} r b) s = ended_unseen-IsSound t v w s r b
  Step-IsSound (sets_savepoint {t} {v} {w} n r) s =
      rw (S.savepoint_law v w n r) (add_savepoint-IsSound t v s n)
  Step-IsSound (rolls_back_to {t} {v} {w} n m older r b f) s =
      rw (S.rollback_to_law v w n m older r f) (rollback_to-IsSound t v s n m older f b)
  Step-IsSound (releases {t} {v} {w} n m older r b f) s =
      rw (S.release_law v w n m older r f) (release-IsSound t v s n m older f b)
  Step-IsSound (fails b) s = record {
    agrees = s.agrees;
    in_step = s.in_step;
    at_entry = s.at_entry;
    no_session_write = s.no_session_write;
    no_local_write = s.no_local_write;
    outside = s.outside;
    points = s.points;
  }

  pub Reach-IsSound :
      {t : SessionGucs} {v : View} {t' : SessionGucs} {v' : View}
      → Reach t v t' v'
      → IsSound t v
      → IsSound t' v'
  Reach-IsSound here s = s
  Reach-IsSound (next r st) s = Step-IsSound st (Reach-IsSound r s)

  -- From the attachment of a tracker to a settled session with a right belief, after any sequence
  -- of begins, library writes, followed and unseen ends of transactions, unseen writes that are
  -- forgotten, unseen writes for the session under local values that are put back (suspected ones),
  -- savepoints, releases, rollbacks to savepoints and failures, the belief is unknown or what the
  -- session holds, and the tracker knows whether a transaction is open.
  pub attached-Agrees :
      (raw : Option ℕ) (values : Tracked) (g : ContextGucs) (t : SessionGucs) (v : View)
      → Agrees values g
      → Reach (attach raw values fresh) (settled g) t v
      → Agrees t.values v.now × (t.in_transaction ≡ v.in_block)
  unfolding attach
  attached-Agrees raw values g t v a reach =
      let s : IsSound t v = Reach-IsSound reach (IsSound-settled _ g refl a) in
      (s.agrees, s.in_step)
