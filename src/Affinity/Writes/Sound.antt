-- ===== src/Affinity/Writes/Sound.antt =====
-- The library's own writes (django_rls_tenants/tenants/affinity.py): the session and the tracker
-- after them.
use django_rls_tenants.Base.Core.{
  ℕ, ◌==◌, ◌≡◌, ◌≢◌, refl, sym, ◌∙◌, ◌⊎◌, inl, inr, Bool-cases, Bool, true, false, Option, none,
  some, arith,
}
use django_rls_tenants.Gucs.{ContextGucs, Tracked, tracked_of, written_for, Agrees}
use django_rls_tenants.Affinity.Server.{Server, View, StatusOf, set_config, begin, begun, idle}
use django_rls_tenants.Affinity.Tracker.{SessionGucs, sync_transaction, set_values}
use django_rls_tenants.Affinity.Tracker.Sound.{IsSound}
use django_rls_tenants.Affinity.Tracker.Keeps.{sync_transaction-begin}
use django_rls_tenants.Affinity.Tracker.Session.{written-IsSound}
use django_rls_tenants.Affinity.Connection.{Driver, DriverLaws, returned}

-- The belief about a context, or none, fixes what the session holds.
pub now_of_Agrees :
    (c : Option ContextGucs) (g : ContextGucs) → Agrees (tracked_of c) g → g ≡ written_for c
now_of_Agrees none g a = a
now_of_Agrees (some _) g a = a

pub Agrees-written : (c : Option ContextGucs) → Agrees (tracked_of c) (written_for c)
Agrees-written none = refl
Agrees-written (some _) = refl

-- A tracker in step with the session is left alone by the status.
pub sync_transaction-in_step :
    (t : SessionGucs) (v : View) (status : ℕ)
    → t.in_transaction ≡ v.in_block
    → StatusOf status v
    → sync_transaction status t ≡ t
unfolding sync_transaction
sync_transaction-in_step t v status e h = elim (Bool-cases (status == idle)) [
  | inl i ↦ rw (i, e ∙ h.0 (ground arith))
  | inr i ↦ rw (i, e ∙ h.1 (ground arith))
]

in_transaction-set_values :
    (tv : Tracked) (local : Bool) (t : SessionGucs)
    → (set_values tv local t).in_transaction ≡ t.in_transaction
unfolding set_values
in_transaction-set_values tv local t = refl

module _ (S : Server) where
  -- A write keeps a block open.
  in_block-write :
      (v w : View) (g : ContextGucs) (local : Bool)
      → S.Runs (set_config g local) v w
      → v.in_block ≡ true
      → w.in_block ≡ true
  in_block-write v w g true r b = rw (S.set_local_law v w g r b) b
  in_block-write v w g false r b = rw (S.set_session_law v w g r b) b

  -- A write that is recorded after the status has been read, where the session was in step.
  in_step-IsSound :
      (t : SessionGucs) (v w : View) (status : ℕ) (tv : Tracked) (g : ContextGucs) (local : Bool)
      → IsSound t v
      → Agrees tv g
      → S.Runs (set_config g local) v w
      → (v.in_block ≡ true) ⊎ (local ≡ false)
      → StatusOf status w
      → IsSound (set_values tv local (sync_transaction status t)) w
  in_step-IsSound t v w status tv g local h a r b st =
      let k : IsSound (set_values tv local t) w = written-IsSound S t v w h tv g local a r b in
      rw
        (sync_transaction-in_step t w status
          (sym (in_transaction-set_values tv local t) ∙ k.in_step) st)
        k

  -- The same with a block that the driver begins for the write.
  begun-IsSound :
      (t : SessionGucs) (v u w : View) (status : ℕ) (tv : Tracked) (g : ContextGucs) (local : Bool)
      → IsSound t v
      → Agrees tv g
      → v.in_block ≡ false
      → S.Runs begin v u
      → S.Runs (set_config g local) u w
      → StatusOf status w
      → IsSound (set_values tv local (sync_transaction status t)) w
  begun-IsSound t v u w status tv g local h a b r r' st =
      let e : u ≡ begun v.now = S.begin_law v u r b in
      let o : u.in_block ≡ true = rw e refl in
      let ne : status ≢ idle =
        λ i. absurd (ground (arith, in_block-write u w g local r' o, st.0 i)) in
      let k : IsSound (sync_transaction status t) u =
        rw e (sync_transaction-begin t v h status ne b) in
      written-IsSound S (sync_transaction status t) u w k tv g local a r' (inl o)

module _ (d : Driver) (S : Server) (laws : DriverLaws d S) where
  -- A write that the driver accepts is recorded rightly: in a block, in autocommit, or with the
  -- block that the driver begins for it.
  pub sent-IsSound :
      (t : SessionGucs) (s s' : d.Session) (tv : Tracked) (g : ContextGucs)
      (local autocommit : Bool)
      → IsSound t (d.view s)
      → Agrees tv g
      → d.send autocommit (set_config g local) s ≡ (returned tt, s')
      → ((d.view s).in_block ≡ true) ⊎ ((local ≡ false) ⊎ (autocommit ≡ false))
      → IsSound (set_values tv local (sync_transaction (d.status s') t)) (d.view s')
  sent-IsSound t s s' tv g local autocommit h a sent b =
      go autocommit sent b (Bool-cases (d.view s).in_block)
    where
      direct :
          (ac : Bool)
          → d.send ac (set_config g local) s ≡ (returned tt, s')
          → (ac ≡ true) ⊎ ((d.view s).in_block ≡ true)
          → ((d.view s).in_block ≡ true) ⊎ (local ≡ false)
          → IsSound (set_values tv local (sync_transaction (d.status s') t)) (d.view s')
      direct ac e c b =
          in_step-IsSound S t (d.view s) (d.view s') (d.status s') tv g local h a
            (laws.send_law ac (set_config g local) s s' e c) b (laws.status_law s')

      go :
          (ac : Bool)
          → d.send ac (set_config g local) s ≡ (returned tt, s')
          → ((d.view s).in_block ≡ true) ⊎ ((local ≡ false) ⊎ (ac ≡ false))
          → ((d.view s).in_block ≡ true) ⊎ ((d.view s).in_block ≡ false)
          → IsSound (set_values tv local (sync_transaction (d.status s') t)) (d.view s')
      go ac e b (inl i) = direct ac e (inr i) (inl i)
      go true e b (inr o) = direct true e (inl refl) (inr (ground arith))
      go false e b (inr o) =
          let (u, rb, rw') = laws.implicit_begin_law (set_config g local) s s' e o in
          begun-IsSound S t (d.view s) u (d.view s') (d.status s') tv g local h a o rb rw'
            (laws.status_law s')
