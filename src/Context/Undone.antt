-- ===== src/Context/Undone.antt =====
-- What a failed write on all aliases leaves (`_set_gucs_on_all_databases` of
-- django_rls_tenants/tenants/middleware.py).
mod Tests
use mathlib.Core.Path.{subst}
use django_rls_tenants.Base.Core.{
  ◌≡◌, ◌∙◌, ap, sym, refl, ◌⊎◌, inl, inr, Bool, true, false, ◌||◌, Option, none, some, List, [],
  ◌∷◌, ◌++◌, Bool-cases, arith, if◌then◌else◌,
}
use django_rls_tenants.Base.Text.{Text, text_eq, text_in}
use django_rls_tenants.Base.Outcome.{Outcome, returned, raised, and_then, Error}
use django_rls_tenants.Gucs.{ContextGucs}
use django_rls_tenants.Affinity.Connection.{Config, Driver, World, Ran}
use django_rls_tenants.Affinity.Writes.{write_gucs}
use django_rls_tenants.Context.{Variables, context_gucs_of}
use django_rls_tenants.Context.Databases.{
  is_exception, suppressed, ThreadConnections, with_connection, write_alias, clear_aliases,
  undo_completed, write_aliases, set_gucs_on_all_databases,
}

text_in-snoc :
    (w a : Text) (xs : List Text) → text_in w (xs ++ a ∷ []) ≡ (text_in w xs || text_eq w a)
unfolding text_in
text_in-snoc w a [] = ground arith
text_in-snoc w a (x ∷ xs) = rw (text_in-snoc w a xs) (ground arith)

module _ (d : Driver) (connect : World d → Ran d (Unit {0})) (conf : Config) where
  -- The connection is as it was, its last write was refused, or it was cleared.
  abbrev pub IsUndone : World d → World d → Type 0
  IsUndone before after =
      (after ≡ before)
      ⊎ (((gucs : ContextGucs) × (w : World d) × (e : Error) × (write_gucs d connect conf
                (some gucs) false w
              ≡ (raised e, after)))
          ⊎ ((w : World d) × ((write_gucs d connect conf none false w).1 ≡ after)))

  with_connection-cases :
      (P : World d → Type 0) (a b : Text) (w : World d) (cs : ThreadConnections d)
      → (text_eq b a ≡ true → P w)
      → (text_eq b a ≡ false → P (cs b))
      → P (with_connection d a w cs b)
  unfolding with_connection
  with_connection-cases P a b w cs f g = elim (Bool-cases (text_eq b a)) [
    | inl e ↦ rw e (f e)
    | inr e ↦ rw e (g e)
  ]

  module _ (before : ThreadConnections d) where
    abbrev AllUndone : ThreadConnections d → Type 0
    AllUndone cs = (b : Text) → IsUndone (before b) (cs b)

    -- A cleanup that is interrupted raises what no `except Exception` catches.
    abbrev IsCleared : Outcome (Unit {0}) × ThreadConnections d → Type 0
    IsCleared (returned u, cs) = AllUndone cs
    IsCleared (raised e, cs) = is_exception e ≡ false

    abbrev ClearsOn : List Text → Type 0
    ClearsOn aliases =
        (cs : ThreadConnections d)
        → ((b : Text) → IsUndone (before b) (cs b) ⊎ (text_in b aliases ≡ true))
        → IsCleared (clear_aliases d connect conf aliases cs)

    and_then-IsCleared :
        (a : Text) (aliases : List Text) (cs : ThreadConnections d) (o : Outcome (Unit {0}))
        (w : World d)
        → ClearsOn aliases
        → ((b : Text) → IsUndone (before b) (cs b) ⊎ (text_in b (a ∷ aliases) ≡ true))
        → ((x : World d) × ((write_gucs d connect conf none false x).1 ≡ w))
        → IsCleared (
            and_then
              (suppressed o, with_connection d a w cs)
              (λ _ cs₂. clear_aliases d connect conf aliases cs₂))
    unfolding text_in
    and_then-IsCleared a aliases cs o w rest h k = of o
      where
        next :
            (b : Text)
            → IsUndone (before b) (with_connection d a w cs b) ⊎ (text_in b aliases ≡ true)
        next b =
            with_connection-cases (λ v. IsUndone (before b) v ⊎ (text_in b aliases ≡ true)) a b w cs
              (λ e. inl (inr (inr k)))
              (λ e. elim (h b) [ inl u ↦ inl u | inr t ↦ inr (ground arith) ])

        of :
            (o : Outcome (Unit {0}))
            → IsCleared (
                and_then
                  (suppressed o, with_connection d a w cs)
                  (λ _ cs₂. clear_aliases d connect conf aliases cs₂))
        of (returned u) = rest (with_connection d a w cs) next
        of (raised e) = elim (Bool-cases (is_exception e)) [
          | inl t ↦ rw t (rest (with_connection d a w cs) next)
          | inr f ↦ rw f f
        ]

    clear_aliases-IsCleared : (aliases : List Text) → ClearsOn aliases
    unfolding text_in clear_aliases write_alias
    clear_aliases-IsCleared [] cs h = λ b. elim (h b) [ inl u ↦ u | inr t ↦ cc ]
    clear_aliases-IsCleared (a ∷ aliases) cs h =
        and_then-IsCleared a aliases cs (write_gucs d connect conf none false (cs a)).0
          (write_gucs d connect conf none false (cs a)).1 (clear_aliases-IsCleared aliases) h
          (cs a, refl)

    -- What the whole call leaves.
    abbrev IsLeft : Outcome (Unit {0}) × ThreadConnections d → Type 0
    IsLeft (returned u, cs) = Unit
    IsLeft (raised e, cs) = is_exception e ≡ true → AllUndone cs

    raised-IsLeft :
        (e : Error) (r : Outcome (Unit {0}) × ThreadConnections d)
        → IsCleared r
        → IsLeft (and_then r (λ _ cs₁. (raised e, cs₁)))
    raised-IsLeft e (returned u, cs) h = λ t. h
    raised-IsLeft e (raised x, cs) h = λ t. cc

    undo_completed-IsLeft :
        (e : Error) (completed : List Text) (cs : ThreadConnections d)
        → ((b : Text) → IsUndone (before b) (cs b) ⊎ (text_in b completed ≡ true))
        → IsLeft (undo_completed d connect conf e completed cs)
    undo_completed-IsLeft e completed cs h = elim (Bool-cases (is_exception e)) [
      | inl t ↦ rw t (
          raised-IsLeft e (clear_aliases d connect conf completed cs)
            (clear_aliases-IsCleared completed cs h))
      | inr f ↦ rw f (λ t. cc)
    ]

    abbrev WritesOn : ContextGucs → List Text → Type 0
    WritesOn gucs aliases =
        (completed : List Text) (cs : ThreadConnections d)
        → ((b : Text) → (cs b ≡ before b) ⊎ (text_in b completed ≡ true))
        → IsLeft (write_aliases d connect conf gucs aliases completed cs)

    written-IsLeft :
        (gucs : ContextGucs) (a : Text) (aliases completed : List Text) (cs : ThreadConnections d)
        → WritesOn gucs aliases
        → ((b : Text) → (cs b ≡ before b) ⊎ (text_in b completed ≡ true))
        → (r : Ran d (Unit {0})) → write_gucs d connect conf (some gucs) false (cs a) ≡ r
        → IsLeft (elim r.0 [
          | returned u ↦
              write_aliases d connect conf gucs aliases
                (completed ++ a ∷ [])
                (with_connection d a r.1 cs)
          | raised e ↦ undo_completed d connect conf e completed (with_connection d a r.1 cs)
        ])
    written-IsLeft gucs a aliases completed cs rest h (returned u, w) q =
        rest (completed ++ a ∷ []) (with_connection d a w cs) (λ b.
          with_connection-cases (λ v. (v ≡ before b) ⊎ (text_in b (completed ++ a ∷ []) ≡ true)) a b
            w cs (λ t. inr (rw (text_in-snoc b a completed, t) (ground arith)))
            (λ f. elim (h b) [
              | inl u ↦ inl u
              | inr t ↦ inr (rw (text_in-snoc b a completed, t) refl)
            ]))
    written-IsLeft gucs a aliases completed cs rest h (raised e, w) q =
        undo_completed-IsLeft e completed (with_connection d a w cs) (λ b.
          with_connection-cases (λ v. IsUndone (before b) v ⊎ (text_in b completed ≡ true)) a b w cs
            (λ t. inl (inr (inl (gucs, cs a, e, q))))
            (λ f. elim (h b) [ inl u ↦ inl (inl u) | inr t ↦ inr t ]))

    write_aliases-IsLeft : (gucs : ContextGucs) (aliases : List Text) → WritesOn gucs aliases
    unfolding write_aliases write_alias
    write_aliases-IsLeft gucs [] completed cs h = tt
    write_aliases-IsLeft gucs (a ∷ aliases) completed cs h =
        written-IsLeft gucs a aliases completed cs (write_aliases-IsLeft gucs aliases) h
          (write_gucs d connect conf (some gucs) false (cs a)) refl

    all-IsLeft :
        (prefix : Text) (guc_vars : Variables)
        → IsLeft (set_gucs_on_all_databases d connect conf prefix guc_vars before)
    unfolding set_gucs_on_all_databases
    all-IsLeft prefix guc_vars = local conf.use_local_set
      where
        of :
            (o : Outcome ContextGucs)
            → IsLeft (
                and_then
                  (o, before)
                  (λ gucs cs₁. write_aliases d connect conf gucs conf.databases [] cs₁))
        of (returned gucs) = write_aliases-IsLeft gucs conf.databases [] before (λ b. inl refl)
        of (raised e) = λ t b. inl refl

        local :
            (b : Bool)
            → IsLeft (
                if b
                then (returned tt, before)
                else and_then
                    (context_gucs_of prefix guc_vars, before)
                    (λ gucs cs₁. write_aliases d connect conf gucs conf.databases [] cs₁))
        local true = tt
        local false = of (context_gucs_of prefix guc_vars)

  -- When _set_gucs_on_all_databases raises an exception that except Exception catches, then the
  -- connection of every alias is as it was before the call, or its last write of values was itself
  -- refused, or it is what an attempt to clear both GUCs left: no alias that had got the values is
  -- left without that attempt.
  pub set_gucs_on_all_databases-IsUndone :
      (prefix : Text) (guc_vars : Variables) (before after : ThreadConnections d) (e : Error)
      → set_gucs_on_all_databases d connect conf prefix guc_vars before ≡ (raised e, after)
      → is_exception e ≡ true
      → (alias : Text) → IsUndone (before alias) (after alias)
  set_gucs_on_all_databases-IsUndone prefix guc_vars before after e h t alias =
      subst (IsLeft before) h (all-IsLeft before prefix guc_vars) t alias
