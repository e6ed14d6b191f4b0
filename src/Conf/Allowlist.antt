-- ===== src/Conf/Allowlist.antt =====
-- The allowlist `UNIQUE_ACROSS_TENANTS` (django_rls_tenants/tenants/conf.py).
mod Refused
use mathlib.Core.Path.{subst}
use django_rls_tenants.Base.Core.{
  ◌≡◌, ◌∙◌, ◌↔◌, ap, refl, Bool, true, ◌&&◌, not, List, [], ◌∷◌, and_parts, arith,
}
use django_rls_tenants.Base.Text.{Text, is_empty}
use django_rls_tenants.Base.Outcome.{
  Outcome, returned, raised, Error, configuration_error, ◌>>=◌, Post, post, post_raised, Post->>=,
  Post-returned,
}
use django_rls_tenants.Conf.Allowlist.Refused.{IsRefusal, allowlist_pairs-IsRefusal}
use django_rls_tenants.Conf.{
  Setting, null, other, flag, text, items, set_items, mapping, Items, no_items, item, Pairs,
  no_pairs, pair, texts_of, Entry, name, fields, allowlist_entry, allowlist_entries,
  allowlist_pairs,
}

-- The settings that mean an allowlist.
unfoldable pub text_items : List Text → Items
text_items [] = no_items
text_items (t ∷ ts) = item (text t) (text_items ts)

abbrev pub entry_setting : Entry → Setting
entry_setting (name t) = text t
entry_setting (fields ts) = items (text_items ts)

unfoldable pub entry_items : List Entry → Items
unfolding text_items
entry_items [] = no_items
entry_items (e ∷ es) = item (entry_setting e) (entry_items es)

unfoldable pub allowlist_setting : List (Text × List Entry) → Pairs
unfolding entry_items
allowlist_setting [] = no_pairs
allowlist_setting ((label, es) ∷ more) =
    pair (text label) (items (entry_items es)) (allowlist_setting more)

-- A tuple of fields is not empty.
abbrev pub is_valid : Entry → Bool
is_valid (name t) = true
is_valid (fields ts) = not (is_empty ts)

unfoldable pub are_valid : List Entry → Bool
are_valid [] = true
are_valid (e ∷ es) = is_valid e && are_valid es

unfoldable pub all_valid : List (Text × List Entry) → Bool
unfolding are_valid
all_valid [] = true
all_valid ((label, es) ∷ more) = are_valid es && all_valid more

texts_of-text_items : (ts : List Text) → texts_of (text_items ts) ≡ returned ts
unfolding texts_of text_items
texts_of-text_items [] = refl
texts_of-text_items (t ∷ ts) = ap (λ o. o >>= λ us. returned (t ∷ us)) (texts_of-text_items ts)

allowlist_entry-entry_setting :
    (e : Entry) → is_valid e ≡ true → allowlist_entry (entry_setting e) ≡ returned e
unfolding allowlist_entry text_items
allowlist_entry-entry_setting (name t) h = refl
allowlist_entry-entry_setting (fields []) h = ground arith
allowlist_entry-entry_setting (fields (t ∷ ts)) h =
    ap (λ o. o >>= λ us. returned (fields us)) (texts_of-text_items (t ∷ ts))

allowlist_entries-entry_items :
    (es : List Entry) → are_valid es ≡ true → allowlist_entries (entry_items es) ≡ returned es
unfolding allowlist_entries entry_items are_valid
allowlist_entries-entry_items [] h = refl
allowlist_entries-entry_items (e ∷ es) h =
    let (a, b) = and_parts _ _ h in
    λ i. allowlist_entry-entry_setting e a i >>= λ x.
    allowlist_entries-entry_items es b i >>= λ xs. returned (x ∷ xs)

allowlist_pairs-setting :
    (a : List (Text × List Entry))
    → all_valid a ≡ true
    → allowlist_pairs (allowlist_setting a) ≡ returned a
unfolding allowlist_pairs allowlist_setting all_valid
allowlist_pairs-setting [] h = refl
allowlist_pairs-setting ((label, es) ∷ more) h =
    let (a, b) = and_parts _ _ h in
    λ i. allowlist_entries-entry_items es a i >>= λ xs.
    allowlist_pairs-setting more b i >>= λ rest. returned ((label, xs) ∷ rest)

texts_of-Post : (l : Items) → Post (λ ts. l ≡ text_items ts) (texts_of l)
unfolding texts_of text_items
texts_of-Post no_items = post refl
texts_of-Post (item (text t) more) =
    Post->>= (texts_of more) (texts_of-Post more) λ ts e. post (ap (λ l. item (text t) l) e)
texts_of-Post (item null more) = post_raised
texts_of-Post (item other more) = post_raised
texts_of-Post (item (flag b) more) = post_raised
texts_of-Post (item (items l) more) = post_raised
texts_of-Post (item (set_items l) more) = post_raised
texts_of-Post (item (mapping m) more) = post_raised

items_filled :
    (v : Setting) (l : Items) (ts : List Text) → item v l ≡ text_items ts → not (is_empty ts) ≡ true
unfolding text_items
items_filled v l [] e = cc
items_filled v l (t ∷ ts) e = refl

allowlist_entry-Post :
    (v : Setting) → Post (λ e. (v ≡ entry_setting e) × (is_valid e ≡ true)) (allowlist_entry v)
unfolding allowlist_entry
allowlist_entry-Post (text t) = post (refl, refl)
allowlist_entry-Post (items (item v more)) =
    Post->>= (texts_of (item v more)) (texts_of-Post (item v more))
      λ ts e. post (ap (λ l. items l) e, items_filled v more ts e)
allowlist_entry-Post (items no_items) = post_raised
allowlist_entry-Post null = post_raised
allowlist_entry-Post other = post_raised
allowlist_entry-Post (flag b) = post_raised
allowlist_entry-Post (set_items l) = post_raised
allowlist_entry-Post (mapping m) = post_raised

allowlist_entries-Post :
    (l : Items) → Post (λ es. (l ≡ entry_items es) × (are_valid es ≡ true)) (allowlist_entries l)
unfolding allowlist_entries entry_items are_valid
allowlist_entries-Post no_items = post (refl, refl)
allowlist_entries-Post (item v more) =
    Post->>= (allowlist_entry v) (allowlist_entry-Post v) λ e (p, k).
      Post->>= (allowlist_entries more) (allowlist_entries-Post more)
        λ es (q, m). post ((λ i. item (p i) (q i)), (λ i. k i && m i))

allowlist_pairs-Post :
    (m : Pairs) → Post (λ a. (m ≡ allowlist_setting a) × (all_valid a ≡ true)) (allowlist_pairs m)
unfolding allowlist_pairs allowlist_setting all_valid
allowlist_pairs-Post no_pairs = post (refl, refl)
allowlist_pairs-Post (pair (text label) (items es) more) =
    Post->>= (allowlist_entries es) (allowlist_entries-Post es) λ xs (p, k).
      Post->>= (allowlist_pairs more) (allowlist_pairs-Post more)
        λ rest (q, m). post ((λ i. pair (text label) (items (p i)) (q i)), (λ i. k i && m i))
allowlist_pairs-Post (pair (text label) null more) = post_raised
allowlist_pairs-Post (pair (text label) other more) = post_raised
allowlist_pairs-Post (pair (text label) (flag b) more) = post_raised
allowlist_pairs-Post (pair (text label) (text t) more) = post_raised
allowlist_pairs-Post (pair (text label) (set_items l) more) = post_raised
allowlist_pairs-Post (pair (text label) (mapping m) more) = post_raised
allowlist_pairs-Post (pair null es more) = post_raised
allowlist_pairs-Post (pair other es more) = post_raised
allowlist_pairs-Post (pair (flag b) es more) = post_raised
allowlist_pairs-Post (pair (items l) es more) = post_raised
allowlist_pairs-Post (pair (set_items l) es more) = post_raised
allowlist_pairs-Post (pair (mapping m) es more) = post_raised

-- The check of a dict under UNIQUE_ACROSS_TENANTS returns an allowlist exactly if the dict is that
-- allowlist written as settings, a text for a name and a list or tuple of texts for a tuple of
-- fields, and no tuple of fields is empty; whatever it raises is RLSConfigurationError.
pub allowlist_pairs_iff :
    (m : Pairs) (a : List (Text × List Entry))
    → ((allowlist_pairs m ≡ returned a) ↔ ((m ≡ allowlist_setting a) × (all_valid a ≡ true)))
      × ((e : Error) → allowlist_pairs m ≡ raised e → e ≡ configuration_error)
allowlist_pairs_iff m a = (
  (
    λ h. Post-returned (
        subst (λ o. Post (λ x. (m ≡ allowlist_setting x) × (all_valid x ≡ true)) o) h
          (allowlist_pairs-Post m)),
    λ (e, k). ap allowlist_pairs e ∙ allowlist_pairs-setting a k,
  ),
  λ e h. subst (λ o. IsRefusal o) h (allowlist_pairs-IsRefusal m),
)
