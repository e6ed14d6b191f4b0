-- ===== src/Rls/Context/Tests.antt =====
-- The contexts on a session that is its values, in autocommit.
use django_rls_tenants.Base.Core.{
  ◌≡◌, refl, true, false, Option, none, List, [], ◌∷◌, map, if◌then◌else◌,
}
use django_rls_tenants.Base.Text.{Text, codes, text_eq, text_in}
use django_rls_tenants.Base.Outcome.{Outcome, returned, raised, exception}
use django_rls_tenants.Rls.Guc.{Database, Conn, not_empty, is_guc_name, all_name_chars}
use django_rls_tenants.Rls.Context.{rls_context, bypass_flag}
use django_rls_tenants.Rls.Context.Laws.{put, DatabaseLaws}
use django_rls_tenants.Rls.Context.Restores.{put_all, rls_context-restores, bypass_flag-restores}

abbrev values : Database
values = record {
  Session = Text → Option Text;
  set = λ is_local n v s. (returned tt, put n v s);
  show = λ n s. (returned (s n), s);
}

abbrev values_laws : DatabaseLaws values
values_laws = record {
  accepts = λ s. true;
  known = λ n. true;
  value = λ s. s;
  set_law = λ is_local n v s k a. (put n v s, refl, refl, refl);
  show_law = λ n s k a. (s, refl, refl, refl);
}

abbrev unset : Conn values
unset = record { session = λ n. none; in_atomic_block = false; needs_rollback = false }

abbrev tenant_7 : List (Text × Text)
tenant_7 = (codes "rls.current_tenant", codes "7") ∷ (codes "rls.is_admin", codes "false") ∷ []

-- A body that sets another GUC and the tenant, and fails, with its atomic block to be rolled back.
abbrev fails : Conn values → Outcome (Unit {0}) × Conn values
fails c = (
  raised exception,
  record c {
    session =
        put (codes "rls.current_tenant") (codes "8")
          (put (codes "rls.extra") (codes "x") c.session);
    needs_rollback = true;
  },
)

rls_context-restores_example :
    (c₁ c₂ : Conn values) × (rls_context values tenant_7 false fails unset ≡ ((fails c₁).0, c₂))
    × (c₁.session ≡ put_all tenant_7 unset.session)
    × ((m : Text)
        → not_empty (c₂.session m) ≡ (
            if text_in m (map (λ p. p.0) tenant_7)
            then not_empty (unset.session m)
            else not_empty ((fails c₁).1.session m)))
    × (c₂.needs_rollback ≡ (fails c₁).1.needs_rollback)
unfolding is_guc_name all_name_chars
rls_context-restores_example =
    rls_context-restores values values_laws tenant_7 false fails unset
      ((refl, refl), ((refl, refl), tt)) refl refl refl (λ c₁. (refl, refl))

bypass_flag-restores_example :
    (c₁ c₂ : Conn values) × (bypass_flag values (codes "rls.is_login") false fails unset
      ≡ ((fails c₁).0, c₂))
    × (c₁.session ≡ put (codes "rls.is_login") (codes "true") unset.session)
    × ((m : Text)
        → not_empty (c₂.session m) ≡ (
            if text_eq m (codes "rls.is_login")
            then not_empty (unset.session m)
            else not_empty ((fails c₁).1.session m)))
unfolding is_guc_name all_name_chars
bypass_flag-restores_example =
    bypass_flag-restores values values_laws (codes "rls.is_login") false fails unset (refl, refl)
      refl refl refl (λ c₁. (refl, refl))
