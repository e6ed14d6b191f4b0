-- ===== src/Rls/Context/Restores.antt =====
-- What `rls_context` leaves when it exits.
use django_rls_tenants.Base.Core.{
  ◌≡◌, ◌∙◌, ap, refl, Bool, true, false, Option, none, some, List, [], ◌∷◌, map, arith,
  if◌then◌else◌, ◌||◌, Bool-cases, inl, inr,
}
use django_rls_tenants.Base.Text.{Text, codes, text_eq, text_in, text_eq_iff}
use django_rls_tenants.Base.Outcome.{Outcome, returned, raised}
use django_rls_tenants.Rls.Guc.{Database, Conn, not_empty}
use django_rls_tenants.Rls.Context.{
  restore_all, restore_gucs, read_all, set_all, leave_context, rls_context, bypass_flag,
}
use django_rls_tenants.Rls.Context.Laws.{
  put, DatabaseLaws, CanSet, written, IsUsable, set_guc-puts, get_guc-reads, restore_guc-puts,
}

-- The values that were read, for the names of `variables`.
abbrev snapshot : (Text → Option Text) → List (Text × Text) → List (Text × Option Text)
snapshot f [] = []
snapshot f ((n, v) ∷ variables) = (n, not_empty (f n)) ∷ snapshot f variables

-- The values of a session after the writes of `variables`, and after the restore of `previous`.
abbrev pub put_all : List (Text × Text) → (Text → Option Text) → Text → Option Text
put_all [] f = f
put_all ((n, v) ∷ variables) f = put_all variables (put n v f)

abbrev put_back : List (Text × Option Text) → (Text → Option Text) → Text → Option Text
put_back [] f = f
put_back ((n, p) ∷ previous) f = put_back previous (put n (written p) f)

not_empty-written : (o : Option Text) → not_empty (some (written (not_empty o))) ≡ not_empty o
not_empty-written none = refl
not_empty-written (some []) = refl
not_empty-written (some (c ∷ s)) = refl

-- Restoring what was read brings the names of `variables` back and touches no other.
put_back-snapshot :
    (f g : Text → Option Text) (variables : List (Text × Text)) (m : Text)
    → not_empty (put_back (snapshot f variables) g m)
      ≡ (if text_in m (map (λ p. p.0) variables) then not_empty (f m) else not_empty (g m))
unfolding text_in
put_back-snapshot f g [] m = refl
put_back-snapshot f g ((n, v) ∷ variables) m =
    put_back-snapshot f (put n (written (not_empty (f n))) g) variables m ∙ merge
  where
    merge :
        (if text_in m (map (λ p. p.0) variables)
          then not_empty (f m)
          else not_empty (put n (written (not_empty (f n))) g m))
        ≡ (if text_eq m n || text_in m (map (λ p. p.0) variables)
            then not_empty (f m)
            else not_empty (g m))
    merge = elim (Bool-cases (text_eq m n)) [
      | inl e ↦ rw e (rw ((text_eq_iff m n).0 e) (rw (not_empty-written (f n)) (ground arith)))
      | inr e ↦ rw e refl
    ]

module _ (d : Database) (laws : DatabaseLaws d) where
  -- All names are usable.
  abbrev pub AllUsable : List (Text × Text) → Type 0
  AllUsable [] = Unit {0}
  AllUsable ((n, v) ∷ variables) = IsUsable d laws n × AllUsable variables

  read_all-snapshot :
      (variables : List (Text × Text)) (c : Conn d)
      → AllUsable variables
      → laws.accepts c.session ≡ true
      → c.needs_rollback ≡ false
      → (s' : d.Session) × (read_all d variables c
          ≡ (returned (snapshot (laws.value c.session) variables), record c { session = s' }))
        × (laws.accepts s' ≡ true)
        × (laws.value s' ≡ laws.value c.session)
  unfolding read_all
  read_all-snapshot [] c u a q = (c.session, refl, a, refl)
  read_all-snapshot ((n, v) ∷ variables) c (u, us) a q =
      let (s₁, e₁, a₁, p₁) = get_guc-reads d laws n c u a q in
      let (s₂, e₂, a₂, p₂) = read_all-snapshot variables (record c { session = s₁ }) us a₁ q in
      (
        s₂,
        rw (e₁, e₂)
            (λ i. (
              returned ((n, not_empty (laws.value c.session n)) ∷ snapshot (p₁ i) variables),
              record c { session = s₂ },
            )),
        a₂,
        p₂ ∙ p₁,
      )

  set_all-puts :
      (variables : List (Text × Text)) (is_local : Bool) (c : Conn d)
      → AllUsable variables
      → laws.accepts c.session ≡ true
      → CanSet d is_local c
      → c.needs_rollback ≡ false
      → (s' : d.Session) × (set_all d variables is_local c
          ≡ (returned tt, record c { session = s' }))
        × (laws.accepts s' ≡ true)
        × (laws.value s' ≡ put_all variables (laws.value c.session))
  unfolding set_all
  set_all-puts [] is_local c u a b q = (c.session, refl, a, refl)
  set_all-puts ((n, v) ∷ variables) is_local c (u, us) a b q =
      let (s₁, e₁, a₁, p₁) = set_guc-puts d laws n v is_local c u a b q in
      let (s₂, e₂, a₂, p₂) =
        set_all-puts variables is_local (record c { session = s₁ }) us a₁ b q in
      (s₂, rw (e₁, e₂) refl, a₂, p₂ ∙ ap (put_all variables) p₁)

  restore_all-puts :
      (f : Text → Option Text) (variables : List (Text × Text)) (is_local pending : Bool)
      (c : Conn d)
      → AllUsable variables
      → laws.accepts c.session ≡ true
      → CanSet d is_local c
      → c.needs_rollback ≡ false
      → (s' : d.Session) × (restore_all d (snapshot f variables) is_local pending c
          ≡ (returned true, record c { session = s' }))
        × (laws.value s' ≡ put_back (snapshot f variables) (laws.value c.session))
  unfolding restore_all
  restore_all-puts f [] is_local pending c u a b q = (c.session, refl, refl)
  restore_all-puts f ((n, v) ∷ variables) is_local pending c (u, us) a b q =
      let (s₁, e₁, a₁, p₁) = restore_guc-puts d laws n (not_empty (f n)) is_local c u a b q in
      let (s₂, e₂, p₂) =
        restore_all-puts f variables is_local pending (record c { session = s₁ }) us a₁ b q in
      (s₂, rw (e₁, e₂) refl, p₂ ∙ ap (put_back (snapshot f variables)) p₁)

  restore_gucs-puts :
      (f : Text → Option Text) (variables : List (Text × Text)) (is_local pending : Bool)
      (c : Conn d)
      → AllUsable variables
      → laws.accepts c.session ≡ true
      → CanSet d is_local c
      → (s' : d.Session) × (restore_gucs d (snapshot f variables) is_local pending c
          ≡ (returned true, record c { session = s' }))
        × (laws.value s' ≡ put_back (snapshot f variables) (laws.value c.session))
  unfolding restore_gucs
  restore_gucs-puts f [] is_local pending c u a b = (c.session, refl, refl)
  restore_gucs-puts f ((n, v) ∷ variables) is_local pending c u a b =
      let (s, e, p) =
        restore_all-puts f ((n, v) ∷ variables) is_local pending
          (record c { needs_rollback = false }) u a b refl in
      (s, rw e refl, p)

  leave_context-puts :
      {R : Type 0} (f : Text → Option Text) (variables : List (Text × Text)) (is_local : Bool)
      (o : Outcome R) (c : Conn d)
      → AllUsable variables
      → laws.accepts c.session ≡ true
      → CanSet d is_local c
      → (s' : d.Session) × (leave_context d (snapshot f variables) is_local (o, c)
          ≡ (o, record c { session = s' }))
        × (laws.value s' ≡ put_back (snapshot f variables) (laws.value c.session))
  unfolding leave_context
  leave_context-puts f variables is_local (returned r) c u a b =
      let (s, e, p) = restore_gucs-puts f variables is_local false c u a b in (s, rw e refl, p)
  leave_context-puts f variables is_local (raised x) c u a b =
      let (s, e, p) = restore_gucs-puts f variables is_local true c u a b in (s, rw e refl, p)

  -- In a session that accepts statements, with no rollback pending at the entry, with names that
  -- the code and PostgreSQL take and, for local writes, in an atomic block, before and after a body
  -- that may do anything else, may leave a rollback pending and may raise: rls_context runs the
  -- body with the variables set, its result or exception is the body's, and at the exit the
  -- variables read as at the entry, every other GUC as the body left it, and the rollback flag is
  -- the body's.
  pub rls_context-restores :
      {R : Type 0} (variables : List (Text × Text)) (is_local : Bool)
      (body : Conn d → Outcome R × Conn d) (c : Conn d)
      → AllUsable variables
      → laws.accepts c.session ≡ true
      → CanSet d is_local c
      → c.needs_rollback ≡ false
      → ((c₁ : Conn d) → (laws.accepts (body c₁).1.session ≡ true) × CanSet d is_local (body c₁).1)
      → (c₁ c₂ : Conn d) × (rls_context d variables is_local body c ≡ ((body c₁).0, c₂))
        × (laws.value c₁.session ≡ put_all variables (laws.value c.session))
        × ((m : Text)
            → not_empty (laws.value c₂.session m) ≡ (
                if text_in m (map (λ p. p.0) variables)
                then not_empty (laws.value c.session m)
                else not_empty (laws.value (body c₁).1.session m)))
        × (c₂.needs_rollback ≡ (body c₁).1.needs_rollback)
  unfolding rls_context
  rls_context-restores variables is_local body c u a b q ok =
      let (s₁, e₁, a₁, p₁) = read_all-snapshot variables c u a q in
      let (s₂, e₂, a₂, p₂) = set_all-puts variables is_local (record c { session = s₁ }) u a₁ b q in
      let c₁ : Conn d = record c { session = s₂ } in
      let (o, c₃) = body c₁ in
      let f = laws.value c.session in
      let (s₄, e₄, p₄) =
        leave_context-puts f variables is_local (body c₁).0 (body c₁).1 u (ok c₁).0 (ok c₁).1 in
      (
        c₁,
        record (body c₁).1 { session = s₄ },
        rw e₁ (rw e₂ e₄),
        p₂ ∙ ap (put_all variables) p₁,
        (λ m.
            ap (λ (g : Text → Option Text). not_empty (g m)) p₄
            ∙ put_back-snapshot f (laws.value (body c₁).1.session) variables m),
        refl,
      )

  -- Under the same conditions as for rls_context (a session that accepts statements, no rollback
  -- pending at the entry, a usable name, an atomic block for local writes, before and after the
  -- body), bypass_flag runs the body with the flag at true, its result or exception is the body's,
  -- and at the exit the flag reads as at the entry and every other GUC as the body left it.
  pub bypass_flag-restores :
      {R : Type 0} (flag_name : Text) (is_local : Bool) (body : Conn d → Outcome R × Conn d)
      (c : Conn d)
      → IsUsable d laws flag_name
      → laws.accepts c.session ≡ true
      → CanSet d is_local c
      → c.needs_rollback ≡ false
      → ((c₁ : Conn d) → (laws.accepts (body c₁).1.session ≡ true) × CanSet d is_local (body c₁).1)
      → (c₁ c₂ : Conn d) × (bypass_flag d flag_name is_local body c ≡ ((body c₁).0, c₂))
        × (laws.value c₁.session ≡ put flag_name (codes "true") (laws.value c.session))
        × ((m : Text)
            → not_empty (laws.value c₂.session m) ≡ (
                if text_eq m flag_name
                then not_empty (laws.value c.session m)
                else not_empty (laws.value (body c₁).1.session m)))
  unfolding bypass_flag text_in
  bypass_flag-restores flag_name is_local body c u a b q ok =
      let flag = (flag_name, codes "true") ∷ [] in
      let (s₁, e₁, a₁, p₁) = get_guc-reads d laws flag_name c u a q in
      let (s₂, e₂, a₂, p₂) =
        set_guc-puts d laws flag_name (codes "true") is_local (record c { session = s₁ }) u a₁ b
          q in
      let c₁ : Conn d = record c { session = s₂ } in
      let f = laws.value c.session in
      let (s₄, e₄, p₄) =
        leave_context-puts f flag is_local (body c₁).0 (body c₁).1 (u, tt) (ok c₁).0 (ok c₁).1 in
      (
        c₁,
        record (body c₁).1 { session = s₄ },
        rw e₁ (rw e₂ e₄),
        p₂ ∙ ap (put flag_name (codes "true")) p₁,
        λ m.
            ap (λ (g : Text → Option Text). not_empty (g m)) p₄
            ∙ put_back-snapshot f (laws.value (body c₁).1.session) flag m
            ∙ ground arith,
      )
