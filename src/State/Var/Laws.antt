-- ===== src/State/Var/Laws.antt =====
-- Setting a variable and resetting it by the token.
use django_rls_tenants.Base.Core.{ℕ, ◌≡◌, ◌≢◌, refl, false, arith}
use django_rls_tenants.State.Var.{Var, done, set, reset}

-- A token that has not been used resets its variable in its own context, whatever the variable
-- holds, and leaves every other context alone.
pub reset-set {ℓ} :
    {A : Type ℓ} (ctx : ℕ) (a : A) (v w : Var A)
    → w.used v.next ≡ false
    → ((reset ctx (set ctx a v).0 w).0 ≡ done)
      × ((reset ctx (set ctx a v).0 w).1.value ctx ≡ v.value ctx)
      × ((j : ℕ) → j ≢ ctx → (reset ctx (set ctx a v).0 w).1.value j ≡ w.value j)
unfolding reset set
reset-set ctx a v w u = (ground arith, ground arith, λ j n. ground arith)

-- The token does not depend on the value.
pub token-set {ℓ} : {A : Type ℓ} (ctx : ℕ) (a b : A) (v : Var A) → (set ctx a v).0 ≡ (set ctx b v).0
unfolding set
token-set ctx a b v = refl
