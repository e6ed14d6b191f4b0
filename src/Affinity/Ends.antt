-- ===== src/Affinity/Ends.antt =====
-- The hooks on Django's commit and rollback, and what the exit of a context does to the connections
-- of the other aliases (django_rls_tenants/tenants/affinity.py).
pub mod Followed
mod Others
mod Tests
use django_rls_tenants.Base.Core.{
  ℕ, ◌==◌, Bool, true, false, not, ◌&&◌, ◌||◌, Option, none, some, List, [], ◌∷◌, if◌then◌else◌,
}
use django_rls_tenants.Base.Text.{Text, text_eq}
use django_rls_tenants.Gucs.{ContextGucs, Tracked, held, cleared, unknown}
use django_rls_tenants.Affinity.Server.{idle}
use django_rls_tenants.Affinity.Tracker.{SessionGucs, forget, suspect_session, follow_end}
use django_rls_tenants.Affinity.Connection.{
  Config, Driver, World, Ran, Outcome, returned, raised, then_do, Error, database_error,
  base_exception,
}
use django_rls_tenants.Base.Outcome.{and_then}
use django_rls_tenants.Affinity.Writes.{same_raw, observe, apply_if_stale}

-- `isinstance(held, tuple)`
abbrev pub is_held : Tracked → Bool
is_held (held g) = true
is_held _ = false

abbrev pub is_unknown : Tracked → Bool
is_unknown unknown = true
is_unknown _ = false

-- The connections of a thread by alias.
abbrev pub Connections : Driver → Type 0
Connections d = Text → Option (World d)

module _ (d : Driver) where
  abbrev pub put_connection : Text → World d → Connections d → Connections d
  put_connection alias w cs a = if text_eq a alias then some w else cs a

  -- `_follow_end` on the connection's tracker, after the driver's commit or rollback.
  unfoldable pub follow_on : ℕ → Option Bool → World d → World d
  follow_on before committed w = elim w.tracker [
    | none ↦ w
    | some t ↦ record w { tracker = some (follow_end before (d.status w.session) committed t) }
  ]

  -- What the end did, and what the tracker makes of it.
  unfoldable pub ended : ℕ → Bool → Ran d (Unit {0}) → Ran d (Unit {0})
  ended before committed (returned u, w) = (returned u, follow_on before (some committed) w)
  ended before committed (raised database_error, w) =
      (raised database_error, follow_on before (some false) w)
  ended before committed (raised e, w) =
      (raised e, follow_on before (if committed then none else some false) w)

  -- `end_and_follow` of `_transaction_end`.
  unfoldable pub transaction_end : (World d → Ran d (Unit {0})) → Bool → World d → Ran d (Unit {0})
  transaction_end end committed w = elim w.tracker [
    | none ↦ end w
    | some tracker ↦ elim w.raw [
      | none ↦ end w
      | some r ↦
          if same_raw r tracker.raw then ended (d.status w.session) committed (end w) else end w
    ]
  ]

  module _ (connect : World d → Ran d (Unit {0})) where
    unfoldable pub apply_open : Config → Option ContextGucs → World d → Ran d (Unit {0})
    apply_open conf context_gucs w = elim w.tracker [
      | none ↦ (returned tt, w)
      | some tracker ↦
          then_do (apply_if_stale d connect conf context_gucs tracker w) (λ _ w'. (returned tt, w'))
    ]

    unfoldable pub apply_active_context : Config → Option ContextGucs → World d → Ran d (Unit {0})
    apply_active_context conf context_gucs w =
        then_do (elim w.raw [ none ↦ connect w | some r ↦ (returned tt, w) ])
          (λ _. apply_open conf context_gucs)

    -- The connection as `_observe` in the test of `settle_other_aliases` leaves it.
    unfoldable pub looked_at : Option Text → SessionGucs → World d → World d
    looked_at none tracker w =
        if is_unknown tracker.values then record w { tracker = some (observe d w tracker).1 } else w
    looked_at (some using) tracker w = w

    -- Whether `settle_other_aliases` settles a connection.
    unfoldable pub settles : Option Text → Bool → SessionGucs → World d → Bool
    settles using cleared_by tracker w =
        let in_transaction = not ((observe d w tracker).0 == idle) in
        is_held tracker.values
        || (none_given using && is_unknown tracker.values && in_transaction)
        || (cleared_by && not (is_held tracker.values))
      where
        none_given : Option Text → Bool
        none_given none = true
        none_given (some _) = false

    -- The `except DatabaseError` of `settle_other_aliases`.
    unfoldable pub settled_or_forgotten : Ran d ℕ → Ran d (Unit {0})
    settled_or_forgotten (returned status, w) = (returned tt, w)
    settled_or_forgotten (raised database_error, w) =
        (returned tt, elim w.tracker [ none ↦ w | some t ↦ record w { tracker = some (forget t) } ])
    settled_or_forgotten (raised e, w) = (raised e, w)

    -- One round of `settle_other_aliases`, on an open connection.
    unfoldable pub settle_tracked :
        Config → Option ContextGucs → Option Text → Bool → SessionGucs → World d → Ran d (Unit {0})
    settle_tracked conf context_gucs using cleared_by tracker w =
        let w' = looked_at using tracker w in
        let now : SessionGucs = elim w'.tracker [ none ↦ tracker | some t ↦ t ] in
        if settles using cleared_by tracker w
        then settled_or_forgotten (apply_if_stale d connect conf context_gucs now w')
        else (returned tt, w')

    unfoldable pub settle_one :
        Config → Option ContextGucs → Option Text → Bool → World d → Ran d (Unit {0})
    settle_one conf context_gucs using cleared_by w = elim w.raw [
      | none ↦ (returned tt, w)
      | some r ↦ elim w.tracker [
        | none ↦ (returned tt, w)
        | some tracker ↦ settle_tracked conf context_gucs using cleared_by tracker w
      ]
    ]

    -- `alias == using`
    abbrev pub is_using : Option Text → Text → Bool
    is_using none alias = false
    is_using (some using) alias = text_eq alias using

    -- A round's outcome, with the connection put back.
    abbrev pub stored : Text → Connections d → Ran d (Unit {0}) → Outcome (Unit {0}) × Connections d
    stored alias cs (o, w) = (o, put_connection alias w cs)

    -- One alias of `settle_other_aliases`.
    unfoldable pub settle_alias :
        Config
        → Option ContextGucs
        → Option Text
        → Bool
        → Text
        → Connections d
        → Outcome (Unit {0}) × Connections d
    settle_alias conf context_gucs using cleared_by alias cs =
        if is_using using alias then (returned tt, cs) else (elim (cs alias) [
          | none ↦ (returned tt, cs)
          | some w ↦ stored alias cs (settle_one conf context_gucs using cleared_by w)
        ])

    -- The loop of `settle_other_aliases`.
    unfoldable pub settle_all :
        Config
        → Option ContextGucs
        → Option Text
        → Bool
        → List Text
        → Connections d
        → Outcome (Unit {0}) × Connections d
    settle_all conf context_gucs using cleared_by [] cs = (returned tt, cs)
    settle_all conf context_gucs using cleared_by (alias ∷ aliases) cs =
        and_then (settle_alias conf context_gucs using cleared_by alias cs)
          (λ _. settle_all conf context_gucs using cleared_by aliases)

    unfoldable pub settle_other_aliases :
        Config
        → Option ContextGucs
        → Option Text
        → Bool
        → Connections d
        → Outcome (Unit {0}) × Connections d
    settle_other_aliases conf context_gucs using cleared_by cs =
        settle_all conf context_gucs using cleared_by conf.databases cs

  -- One alias of `suspect_sessions`; reading the status never raises here.
  unfoldable pub suspect_one : Bool → World d → World d
  suspect_one under_local_values w = elim w.raw [
    | none ↦ w
    | some r ↦ elim w.tracker [
      | none ↦ w
      | some t ↦ record w { tracker = some (suspect_session under_local_values (observe d w t).1) }
    ]
  ]

  -- The loop of `suspect_sessions`.
  unfoldable pub suspect_all : Bool → List Text → Connections d → Connections d
  suspect_all under_local_values [] cs = cs
  suspect_all under_local_values (alias ∷ aliases) cs =
      suspect_all under_local_values aliases (elim (cs alias) [
        | none ↦ cs
        | some w ↦ put_connection alias (suspect_one under_local_values w) cs
      ])

  unfoldable pub suspect_sessions : Config → Bool → Connections d → Connections d
  suspect_sessions conf under_local_values cs = suspect_all under_local_values conf.databases cs
