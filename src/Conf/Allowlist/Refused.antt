-- ===== src/Conf/Allowlist/Refused.antt =====
-- The exceptions of the check of `UNIQUE_ACROSS_TENANTS` (django_rls_tenants/tenants/conf.py).
use django_rls_tenants.Base.Core.{◌≡◌, refl}
use django_rls_tenants.Base.Outcome.{Outcome, returned, raised, configuration_error, ◌>>=◌}
use django_rls_tenants.Conf.{
  Setting, null, other, flag, text, items, set_items, mapping, Items, no_items, item, Pairs,
  no_pairs, pair, texts_of, allowlist_entry, allowlist_entries, allowlist_pairs,
}

-- A call that raises raises RLSConfigurationError.
abbrev pub IsRefusal {ℓ} : {A : Type ℓ} → Outcome A → Type 0
IsRefusal (returned a) = Unit
IsRefusal (raised e) = e ≡ configuration_error

>>=-IsRefusal :
    {A B : Type 0} (m : Outcome A) (f : A → Outcome B)
    → IsRefusal m
    → ((a : A) → IsRefusal (f a))
    → IsRefusal (m >>= f)
>>=-IsRefusal (returned a) f h k = k a
>>=-IsRefusal (raised e) f h k = h

texts_of-IsRefusal : (l : Items) → IsRefusal (texts_of l)
unfolding texts_of
texts_of-IsRefusal no_items = tt
texts_of-IsRefusal (item (text t) more) =
    >>=-IsRefusal (texts_of more) _ (texts_of-IsRefusal more) λ ts. tt
texts_of-IsRefusal (item null more) = refl
texts_of-IsRefusal (item other more) = refl
texts_of-IsRefusal (item (flag b) more) = refl
texts_of-IsRefusal (item (items l) more) = refl
texts_of-IsRefusal (item (set_items l) more) = refl
texts_of-IsRefusal (item (mapping m) more) = refl

allowlist_entry-IsRefusal : (v : Setting) → IsRefusal (allowlist_entry v)
unfolding allowlist_entry
allowlist_entry-IsRefusal (text t) = tt
allowlist_entry-IsRefusal (items (item v more)) =
    >>=-IsRefusal (texts_of (item v more)) _ (texts_of-IsRefusal (item v more)) λ ts. tt
allowlist_entry-IsRefusal (items no_items) = refl
allowlist_entry-IsRefusal null = refl
allowlist_entry-IsRefusal other = refl
allowlist_entry-IsRefusal (flag b) = refl
allowlist_entry-IsRefusal (set_items l) = refl
allowlist_entry-IsRefusal (mapping m) = refl

allowlist_entries-IsRefusal : (l : Items) → IsRefusal (allowlist_entries l)
unfolding allowlist_entries
allowlist_entries-IsRefusal no_items = tt
allowlist_entries-IsRefusal (item v more) =
    >>=-IsRefusal (allowlist_entry v) _ (allowlist_entry-IsRefusal v)
      λ e. >>=-IsRefusal (allowlist_entries more) _ (allowlist_entries-IsRefusal more) λ es. tt

pub allowlist_pairs-IsRefusal : (m : Pairs) → IsRefusal (allowlist_pairs m)
unfolding allowlist_pairs
allowlist_pairs-IsRefusal no_pairs = tt
allowlist_pairs-IsRefusal (pair (text label) (items es) more) =
    >>=-IsRefusal (allowlist_entries es) _ (allowlist_entries-IsRefusal es)
      λ xs. >>=-IsRefusal (allowlist_pairs more) _ (allowlist_pairs-IsRefusal more) λ rest. tt
allowlist_pairs-IsRefusal (pair (text label) null more) = refl
allowlist_pairs-IsRefusal (pair (text label) other more) = refl
allowlist_pairs-IsRefusal (pair (text label) (flag b) more) = refl
allowlist_pairs-IsRefusal (pair (text label) (text t) more) = refl
allowlist_pairs-IsRefusal (pair (text label) (set_items l) more) = refl
allowlist_pairs-IsRefusal (pair (text label) (mapping m) more) = refl
allowlist_pairs-IsRefusal (pair null es more) = refl
allowlist_pairs-IsRefusal (pair other es more) = refl
allowlist_pairs-IsRefusal (pair (flag b) es more) = refl
allowlist_pairs-IsRefusal (pair (items l) es more) = refl
allowlist_pairs-IsRefusal (pair (set_items l) es more) = refl
allowlist_pairs-IsRefusal (pair (mapping m) es more) = refl
