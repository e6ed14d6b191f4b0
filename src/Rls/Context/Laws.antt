-- ===== src/Rls/Context/Laws.antt =====
-- The session behind Django's cursor, as the contexts of django_rls_tenants/rls rely on it, and what
-- one statement does to it.
use django_rls_tenants.Base.Core.{
  ◌≡◌, Bool, true, false, not, ◌&&◌, Option, none, some, [], if◌then◌else◌,
}
use django_rls_tenants.Base.Text.{Text, text_eq}
use django_rls_tenants.Base.Outcome.{returned}
use django_rls_tenants.Rls.Guc.{
  Database, Conn, is_guc_name, not_empty, validate_guc_name, execute_set, set_guc, execute_show,
  get_guc, clear_guc, restore_guc,
}

-- A session's values with another one for `n`.
abbrev pub put : Text → Text → (Text → Option Text) → Text → Option Text
put n v f m = if text_eq m n then some v else f m

-- PostgreSQL: `accepts` is a session that is open and in no failed transaction, `known` a name that
-- it takes for a parameter; such a statement succeeds, `set` gives the name its value and nothing
-- else, and `show` reads.
pub record DatabaseLaws (d : Database) : Type 0 where
  pub accepts : d.Session → Bool
  pub known : Text → Bool
  pub value : d.Session → Text → Option Text
  pub set_law :
      (is_local : Bool) (n v : Text) (s : d.Session)
      → known n ≡ true
      → accepts s ≡ true
      → (s' : d.Session) × (d.set is_local n v s ≡ (returned tt, s'))
        × (accepts s' ≡ true)
        × (value s' ≡ put n v (value s))
  pub show_law :
      (n : Text) (s : d.Session)
      → known n ≡ true
      → accepts s ≡ true
      → (s' : d.Session) × (d.show n s ≡ (returned (value s n), s'))
        × (accepts s' ≡ true)
        × (value s' ≡ value s)

-- A local write is made in an atomic block.
abbrev pub CanSet : (d : Database) → Bool → Conn d → Type 0
CanSet d is_local c = (is_local && not c.in_atomic_block) ≡ false

-- What `restore_guc` writes for a value that was read.
abbrev pub written : Option Text → Text
written none = []
written (some v) = v

module _ (d : Database) (laws : DatabaseLaws d) where
  -- A name that the code and PostgreSQL take.
  abbrev pub IsUsable : Text → Type 0
  IsUsable n = (is_guc_name n ≡ true) × (laws.known n ≡ true)

  executed_set :
      (n v : Text) (is_local : Bool) (c : Conn d) (s' : d.Session)
      → is_guc_name n ≡ true
      → CanSet d is_local c
      → c.needs_rollback ≡ false
      → d.set is_local n v c.session ≡ (returned tt, s')
      → set_guc d n v is_local c ≡ (returned tt, record c { session = s' })
  unfolding set_guc validate_guc_name execute_set
  executed_set n v is_local c s' u b q e = rw u (simp (b, q, e))

  executed_show :
      (n : Text) (c : Conn d) (s' : d.Session)
      → is_guc_name n ≡ true
      → c.needs_rollback ≡ false
      → d.show n c.session ≡ (returned (laws.value c.session n), s')
      → get_guc d n c ≡ (returned (not_empty (laws.value c.session n)), record c { session = s' })
  unfolding get_guc validate_guc_name execute_show
  executed_show n c s' u q e = rw u (simp (q, e))

  pub set_guc-puts :
      (n v : Text) (is_local : Bool) (c : Conn d)
      → IsUsable n
      → laws.accepts c.session ≡ true
      → CanSet d is_local c
      → c.needs_rollback ≡ false
      → (s' : d.Session) × (set_guc d n v is_local c ≡ (returned tt, record c { session = s' }))
        × (laws.accepts s' ≡ true)
        × (laws.value s' ≡ put n v (laws.value c.session))
  set_guc-puts n v is_local c (u, k) a b q =
      let (s', e, a', p) = laws.set_law is_local n v c.session k a in
      (s', executed_set n v is_local c s' u b q e, a', p)

  pub get_guc-reads :
      (n : Text) (c : Conn d)
      → IsUsable n
      → laws.accepts c.session ≡ true
      → c.needs_rollback ≡ false
      → (s' : d.Session) × (get_guc d n c
          ≡ (returned (not_empty (laws.value c.session n)), record c { session = s' }))
        × (laws.accepts s' ≡ true)
        × (laws.value s' ≡ laws.value c.session)
  get_guc-reads n c (u, k) a q =
      let (s', e, a', p) = laws.show_law n c.session k a in (s', executed_show n c s' u q e, a', p)

  pub restore_guc-puts :
      (n : Text) (previous : Option Text) (is_local : Bool) (c : Conn d)
      → IsUsable n
      → laws.accepts c.session ≡ true
      → CanSet d is_local c
      → c.needs_rollback ≡ false
      → (s' : d.Session) × (restore_guc d n previous is_local c
          ≡ (returned tt, record c { session = s' }))
        × (laws.accepts s' ≡ true)
        × (laws.value s' ≡ put n (written previous) (laws.value c.session))
  unfolding restore_guc clear_guc
  restore_guc-puts n none is_local c u a b q = set_guc-puts n [] is_local c u a b q
  restore_guc-puts n (some v) is_local c u a b q = set_guc-puts n v is_local c u a b q
