-- ===== src/Affinity/Guard/Committed.antt =====
-- `_run_in_own_transaction` (django_rls_tenants/tenants/affinity.py), after the statement.
use django_rls_tenants.Base.Core.{◌≡◌, refl, ◌∙◌, ap, ◌⊎◌, inl, inr, true, false, some}
use django_rls_tenants.Affinity.Server.{Server, settled, commit}
use django_rls_tenants.Affinity.Tracker.{SessionGucs, end_transaction}
use django_rls_tenants.Affinity.Tracker.Sound.{IsSound}
use django_rls_tenants.Affinity.Tracker.Keeps.{end_transaction-commit}
use django_rls_tenants.Affinity.Connection.{
  Driver, DriverLaws, World, Ran, returned, raised, then_do, Error, Outcome,
}
use django_rls_tenants.Affinity.Guard.{end_own_transaction, send_control}
use django_rls_tenants.Affinity.Guard.OwnTransaction.{
  in_own_transaction, end_own_transaction-raises,
}

module _ (d : Driver) (S : Server) (laws : DriverLaws d S) {R : Type 0}
    (execute : World d → Ran d R) (w' w : World d) (x : R) (ran : execute w' ≡ (returned x, w))
    (t : SessionGucs) (tracked : w.tracker ≡ some t) (sound : IsSound t (d.view w.session))
    (in_block : (d.view w.session).in_block ≡ true)
    (alive : (d.view w.session).failed ≡ false) where
  sends :
      in_own_transaction d execute w'
      ≡ end_own_transaction d (then_do (send_control d commit w) (λ _ w₃. (returned x, w₃)))
  sends =
      ap
        (λ p.
          end_own_transaction d
            (then_do p (λ r w₂. then_do (send_control d commit w₂) (λ _ w₃. (returned r, w₃)))))
        ran

  -- When a statement of the guard's own transaction has returned with the session still in an
  -- unfailed transaction and the tracker correct, the guard raises, or it gives the statement's
  -- result and then the session is outside any transaction, holds exactly the values that it kept
  -- under the local ones, and the tracker, which has followed the commit, is correct about it.
  pub in_own_transaction-ends :
      ((y : Error) × ((in_own_transaction d execute w').0 ≡ raised y))
      ⊎ ((w₃ : World d) × (in_own_transaction d execute w' ≡ (returned x, w₃))
          × (d.view w₃.session ≡ settled (d.view w.session).kept)
          × (w₃.tracker ≡ some (end_transaction (some true) t))
          × IsSound (end_transaction (some true) t) (d.view w₃.session))
  unfolding send_control end_own_transaction
  in_own_transaction-ends = go (d.send w.autocommit commit w.session) refl
    where
      go :
          (o : Outcome (Unit {0}) × d.Session)
          → d.send w.autocommit commit w.session ≡ o
          → ((y : Error) × ((in_own_transaction d execute w').0 ≡ raised y))
            ⊎ ((w₃ : World d) × (in_own_transaction d execute w' ≡ (returned x, w₃))
                × (d.view w₃.session ≡ settled (d.view w.session).kept)
                × (w₃.tracker ≡ some (end_transaction (some true) t))
                × IsSound (end_transaction (some true) t) (d.view w₃.session))
      go (raised z, s) e =
          let (y, all) = end_own_transaction-raises d R (send_control d commit w) z (rw e refl) in
          inl (y, ap (λ p. p.0) sends ∙ all (λ _ w₃. (returned x, w₃)))
      go (returned u, s) e =
          let view : d.view s ≡ settled (d.view w.session).kept =
            S.commit_law (d.view w.session) (d.view s)
              (laws.send_law w.autocommit commit w.session s e (inr in_block)) alive in
          inr (
            record w { session = s; tracker = some (end_transaction (some true) t) },
            sends ∙ rw e (rw tracked refl),
            view,
            refl,
            rw view (end_transaction-commit t (d.view w.session) sound in_block),
          )
