-- ===== src/Rls/Context.antt =====
-- django_rls_tenants/rls/context.py: the contexts that set GUCs and put them back, and their
-- restore.
pub mod Laws
pub mod Restores
mod Tests
use django_rls_tenants.Base.Core.{
  ℕ, Bool, true, false, Option, none, some, List, [], ◌∷◌, ◌++◌, if◌then◌else◌,
}
use django_rls_tenants.Base.Text.{Text, codes}
use django_rls_tenants.Base.Outcome.{Error, database_error, Outcome, returned, raised, and_then}
use django_rls_tenants.Rls.Guc.{Database, Conn, set_guc, get_guc, restore_guc}

-- What one restore did: a database error counts as skipped where an exception is pending.
abbrev pub skip_error : Bool → Outcome (Unit {0}) → Outcome Bool
skip_error exc_pending (returned u) = returned true
skip_error true (raised database_error) = returned false
skip_error exc_pending (raised e) = raised e

module _ (d : Database) where
  -- The loop of `restore_gucs`.
  unfoldable pub restore_all :
      List (Text × Option Text) → Bool → Bool → Conn d → Outcome Bool × Conn d
  restore_all [] is_local exc_pending conn = (returned true, conn)
  restore_all ((name, prev) ∷ previous) is_local exc_pending conn =
      let (o, c) = restore_guc d name prev is_local conn in
      and_then (skip_error exc_pending o, c)
        (λ done c₁.
          and_then (restore_all previous is_local exc_pending c₁)
            (λ restored c₂. (returned (if done then restored else false), c₂)))

  -- The `finally` of `restore_gucs`.
  abbrev pub with_needs_rollback : Bool → Outcome Bool × Conn d → Outcome Bool × Conn d
  with_needs_rollback b (o, c) = (o, record c { needs_rollback = b })

  unfoldable pub restore_gucs :
      List (Text × Option Text) → Bool → Bool → Conn d → Outcome Bool × Conn d
  restore_gucs [] is_local exc_pending conn = (returned true, conn)
  restore_gucs (p ∷ previous) is_local exc_pending conn =
      with_needs_rollback conn.needs_rollback
        (restore_all (p ∷ previous) is_local exc_pending (record conn { needs_rollback = false }))

  -- `{name: get_guc(name) for name in variables}`
  unfoldable pub read_all :
      List (Text × Text) → Conn d → Outcome (List (Text × Option Text)) × Conn d
  read_all [] conn = (returned [], conn)
  read_all ((name, value) ∷ variables) conn = and_then (get_guc d name conn) (λ prev c.
      and_then (read_all variables c) (λ previous c'. (returned ((name, prev) ∷ previous), c')))

  -- `for name, value in variables.items(): set_guc(name, value)`
  unfoldable pub set_all : List (Text × Text) → Bool → Conn d → Outcome (Unit {0}) × Conn d
  set_all [] is_local conn = (returned tt, conn)
  set_all ((name, value) ∷ variables) is_local conn =
      and_then (set_guc d name value is_local conn) (λ _ c. set_all variables is_local c)

  -- The `finally` of a context: the values are put back, and an exception of that replaces the
  -- block's.
  unfoldable pub leave_context :
      {R : Type 0} → List (Text × Option Text) → Bool → Outcome R × Conn d → Outcome R × Conn d
  leave_context previous is_local (returned r, conn) =
      and_then (restore_gucs previous is_local false conn) (λ _ c. (returned r, c))
  leave_context previous is_local (raised e, conn) =
      and_then (restore_gucs previous is_local true conn) (λ _ c. (raised e, c))

  -- `with rls_context(variables): body`
  unfoldable pub rls_context :
      {R : Type 0}
      → List (Text × Text)
      → Bool
      → (Conn d → Outcome R × Conn d)
      → Conn d
      → Outcome R × Conn d
  rls_context variables is_local body conn = and_then (read_all variables conn) (λ previous c.
      leave_context previous is_local (and_then (set_all variables is_local c) (λ _ c'. body c')))

  -- `with bypass_flag(flag_name): body`; the flag is set before the `try`.
  unfoldable pub bypass_flag :
      {R : Type 0} → Text → Bool → (Conn d → Outcome R × Conn d) → Conn d → Outcome R × Conn d
  bypass_flag flag_name is_local body conn = and_then (get_guc d flag_name conn) (λ previous c.
      and_then (set_guc d flag_name (codes "true") is_local c)
        (λ _ c'. leave_context ((flag_name, previous) ∷ []) is_local (body c')))

  -- The loop of `_enter_gucs`: the values that were read go along, and `done` grows.
  unfoldable pub enter_all :
      List (Text × Text)
      → List (Text × Option Text)
      → Bool
      → List (Text × Option Text)
      → Conn d
      → (Outcome (Unit {0}) × List (Text × Option Text)) × Conn d
  enter_all [] previous is_local done conn = ((returned tt, done), conn)
  enter_all (v ∷ variables) [] is_local done conn = ((returned tt, done), conn)
  enter_all ((name, value) ∷ variables) (p ∷ previous) is_local done conn =
      let (o, c) = set_guc d name value is_local conn in
      let rest = enter_all variables previous is_local (done ++ p ∷ []) c in
      elim o [ returned u ↦ rest | raised e ↦ ((raised e, done), c) ]

  -- The `except` of `_enter_gucs`.
  unfoldable pub undo_entered :
      List (Text × Option Text)
      → Bool
      → (Outcome (Unit {0}) × List (Text × Option Text)) × Conn d
      → Outcome (List (Text × Option Text)) × Conn d
  undo_entered previous is_local ((returned u, done), conn) = (returned previous, conn)
  undo_entered previous is_local ((raised e, done), conn) =
      and_then (restore_gucs done is_local true conn) (λ _ c. (raised e, c))

  unfoldable pub enter_gucs :
      List (Text × Text) → Bool → Conn d → Outcome (List (Text × Option Text)) × Conn d
  enter_gucs variables is_local conn =
      and_then (read_all variables conn)
        (λ previous c. undo_entered previous is_local (enter_all variables previous is_local [] c))
