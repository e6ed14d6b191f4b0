-- ===== src/Affinity/Tracker/Sound.antt =====
-- What it means that the guard's belief about a session is right.
use django_rls_tenants.Base.Text.{Text, text_eq}
use django_rls_tenants.Base.Core.{
  ◌≡◌, refl, ap, sym, inl, inr, Bool, true, false, ◌||◌, List, [], ◌∷◌, arith, Bool-cases,
}
use django_rls_tenants.Gucs.{Tracked, ContextGucs, Agrees}
use django_rls_tenants.Affinity.Tracker.{SessionGucs, savepoints_from}
use django_rls_tenants.Affinity.Server.{View, Mark, settled, marks_from}

-- The savepoints that the tracker holds are those of the session, each with a right belief. A flag
-- that is still false says what the savepoint would leave at a commit.
abbrev pub PointsAgree : Bool → Bool → ContextGucs → List (Text × Tracked) → List Mark → Type 0
PointsAgree ws wl entry [] [] = Unit
PointsAgree ws wl entry ((n, v) ∷ ps) (m ∷ ms) =
    (n ≡ m.name)
    × Agrees v m.now
    × (ws ≡ false → m.kept ≡ entry)
    × (wl ≡ false → Agrees v m.kept)
    × PointsAgree ws wl entry ps ms
PointsAgree ws wl entry _ _ = ⊥

pub record IsSound (t : SessionGucs) (v : View) : Type 0 where
  pub agrees : Agrees t.values v.now
  pub in_step : t.in_transaction ≡ v.in_block
  pub at_entry : v.in_block ≡ true → Agrees t.base v.entry
  pub no_session_write : v.in_block ≡ true → t.wrote_session ≡ false → v.kept ≡ v.entry
  pub no_local_write : v.in_block ≡ true → t.wrote_local ≡ false → Agrees t.values v.kept
  pub outside : v.in_block ≡ false → v.kept ≡ v.now
  pub points :
      v.in_block ≡ true → PointsAgree t.wrote_session t.wrote_local v.entry t.savepoints v.marks

pub PointsAgree-weaken :
    (ws wl a b : Bool) (e : ContextGucs) (ps : List (Text × Tracked)) (ms : List Mark)
    → PointsAgree ws wl e ps ms
    → PointsAgree (ws || a) (wl || b) e ps ms
PointsAgree-weaken ws wl a b e [] [] h = tt
PointsAgree-weaken ws wl a b e [] (m ∷ ms) h = absurd h
PointsAgree-weaken ws wl a b e (p ∷ ps) [] h = absurd h
PointsAgree-weaken ws wl a b e ((n, v) ∷ ps) (m ∷ ms) h = (
  h.0,
  h.1,
  (λ p. h.2 (ground arith)),
  (λ p. h.3 (ground arith)),
  PointsAgree-weaken ws wl a b e ps ms h.4,
)

pub PointsAgree-true :
    (ws wl : Bool) (e : ContextGucs) (ps : List (Text × Tracked)) (ms : List Mark)
    → PointsAgree ws wl e ps ms
    → PointsAgree true true e ps ms
PointsAgree-true ws wl e [] [] h = tt
PointsAgree-true ws wl e [] (m ∷ ms) h = absurd h
PointsAgree-true ws wl e (p ∷ ps) [] h = absurd h
PointsAgree-true ws wl e ((n, v) ∷ ps) (m ∷ ms) h =
    (h.0, h.1, (λ p. cc), (λ p. cc), PointsAgree-true ws wl e ps ms h.4)

pub PointsAgree-from :
    (name : Text) (ws wl : Bool) (e : ContextGucs) (ps : List (Text × Tracked)) (ms : List Mark)
    → PointsAgree ws wl e ps ms
    → PointsAgree ws wl e (savepoints_from name ps) (marks_from name ms)
unfolding savepoints_from
PointsAgree-from name ws wl e [] [] h = tt
PointsAgree-from name ws wl e [] (m ∷ ms) h = absurd h
PointsAgree-from name ws wl e (p ∷ ps) [] h = absurd h
PointsAgree-from name ws wl e ((n, v) ∷ ps) (m ∷ ms) h =
    let e' : text_eq m.name name ≡ text_eq n name = ap (λ (x : Text). text_eq x name) (sym h.0) in
    elim (Bool-cases (text_eq n name)) [
      | inl same ↦ rw (e', same) h
      | inr other ↦ rw (e', other) (PointsAgree-from name ws wl e ps ms h.4)
    ]

pub IsSound-settled :
    (t : SessionGucs) (g : ContextGucs)
    → t.in_transaction ≡ false
    → Agrees t.values g
    → IsSound t (settled g)
IsSound-settled t g b a = record {
  agrees = a;
  in_step = b;
  at_entry = λ o. ground arith;
  no_session_write = λ o ws. refl;
  no_local_write = λ o wl. a;
  outside = λ o. refl;
  points = λ o. ground arith;
}
