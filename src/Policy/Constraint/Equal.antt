-- ===== src/Policy/Constraint/Equal.antt =====
-- `__eq__` of the constraints and the predicates (django_rls_tenants/rls/constraints.py and
-- predicates.py).
use django_rls_tenants.Base.Core.{
  ◌≡◌, ◌∙◌, ◌↔◌, ap, sym, refl, and_parts, Bool, true, List, [], ◌∷◌, arith,
}
use django_rls_tenants.Base.Text.{text_eq, text_eq_iff, text_eq_refl}
use django_rls_tenants.Policy.Predicates.{
  Predicate, shared_with, tenant_field, raw_predicate, predicate_eq,
}
use django_rls_tenants.Policy.Constraint.{RlsConstraint, list_eq, rls_eq}

-- A test that decides equality.
abbrev Decides {ℓ} : {A : Type ℓ} → (A → A → Bool) → Type ℓ
Decides {A = A} eq = (a b : A) → (eq a b ≡ true) ↔ (a ≡ b)

list_eq_refl {ℓ} :
    {A : Type ℓ} (eq : A → A → Bool) → Decides eq → (l : List A) → list_eq eq l l ≡ true
unfolding list_eq
list_eq_refl eq d [] = refl
list_eq_refl eq d (x ∷ l) = rw ((d x x).1 refl) (list_eq_refl eq d l)

list_eq_eq {ℓ} :
    {A : Type ℓ} (eq : A → A → Bool) → Decides eq → (l m : List A) → list_eq eq l m ≡ true → l ≡ m
unfolding list_eq
list_eq_eq eq d [] [] h = refl
list_eq_eq eq d [] (y ∷ m) h = ground arith
list_eq_eq eq d (x ∷ l) [] h = ground arith
list_eq_eq eq d (x ∷ l) (y ∷ m) h =
    let (p, q) = and_parts _ _ h in λ i. (d x y).0 p i ∷ list_eq_eq eq d l m q i

predicate_eq_refl : (p : Predicate) → predicate_eq p p ≡ true
unfolding predicate_eq
predicate_eq_refl (shared_with t f k) = rw (text_eq_refl t, text_eq_refl f) (text_eq_refl k)
predicate_eq_refl (tenant_field f) = text_eq_refl f
predicate_eq_refl (raw_predicate s) = text_eq_refl s

predicate_eq_eq : (p q : Predicate) → predicate_eq p q ≡ true → p ≡ q
unfolding predicate_eq
predicate_eq_eq (shared_with t f k) (shared_with t' f' k') h =
    let (a, r) = and_parts _ _ h in
    let (b, c) = and_parts _ _ r in
    λ i.
      shared_with ((text_eq_iff t t').0 a i) ((text_eq_iff f f').0 b i) ((text_eq_iff k k').0 c i)
predicate_eq_eq (tenant_field f) (tenant_field f') h =
    ap (λ x. tenant_field x) ((text_eq_iff f f').0 h)
predicate_eq_eq (raw_predicate s) (raw_predicate s') h =
    ap (λ x. raw_predicate x) ((text_eq_iff s s').0 h)
predicate_eq_eq (shared_with t f k) (tenant_field f') h = ground arith
predicate_eq_eq (shared_with t f k) (raw_predicate s') h = ground arith
predicate_eq_eq (tenant_field f) (shared_with t' f' k') h = ground arith
predicate_eq_eq (tenant_field f) (raw_predicate s') h = ground arith
predicate_eq_eq (raw_predicate s) (shared_with t' f' k') h = ground arith
predicate_eq_eq (raw_predicate s) (tenant_field f') h = ground arith

predicate_eq-Decides : Decides predicate_eq
predicate_eq-Decides p q =
    (predicate_eq_eq p q, λ e. ap (predicate_eq p) (sym e) ∙ predicate_eq_refl p)

rls_eq_refl : (c : RlsConstraint) → rls_eq c c ≡ true
unfolding rls_eq
rls_eq_refl c =
    rw
      (
        text_eq_refl c.name,
        text_eq_refl c.field,
        text_eq_refl c.guc_tenant_var,
        text_eq_refl c.guc_admin_var,
        text_eq_refl c.tenant_pk_type,
        list_eq_refl text_eq text_eq_iff c.extra_bypass_flags,
      )
      (list_eq_refl predicate_eq predicate_eq-Decides c.extra_predicates)

-- RLSConstraint.__eq__ holds of two constraints exactly if they are equal in every attribute, their
-- lists of predicates included.
pub rls_eq_iff : (c o : RlsConstraint) → (rls_eq c o ≡ true) ↔ (c ≡ o)
unfolding rls_eq
rls_eq_iff c o = (
  λ h.
      let (n, h1) = and_parts _ _ h in
      let (f, h2) = and_parts _ _ h1 in
      let (t, h3) = and_parts _ _ h2 in
      let (a, h4) = and_parts _ _ h3 in
      let (k, h5) = and_parts _ _ h4 in
      let (fl, ps) = and_parts _ _ h5 in
      (λ i. record {
        name = (text_eq_iff c.name o.name).0 n i;
        field = (text_eq_iff c.field o.field).0 f i;
        guc_tenant_var = (text_eq_iff c.guc_tenant_var o.guc_tenant_var).0 t i;
        guc_admin_var = (text_eq_iff c.guc_admin_var o.guc_admin_var).0 a i;
        tenant_pk_type = (text_eq_iff c.tenant_pk_type o.tenant_pk_type).0 k i;
        extra_bypass_flags =
            list_eq_eq text_eq text_eq_iff c.extra_bypass_flags o.extra_bypass_flags fl i;
        extra_predicates =
            list_eq_eq predicate_eq predicate_eq-Decides c.extra_predicates o.extra_predicates ps i;
      }),
  λ e. ap (rls_eq c) (sym e) ∙ rls_eq_refl c,
)
