-- ===== src/Conf/Tests.antt =====
-- The settings of a project, changed while it runs.
use django_rls_tenants.Base.Core.{◌≡◌, ◌↔◌, true, List, [], ◌∷◌, ◌++◌, map}
use django_rls_tenants.Base.Text.{Text, codes}
use django_rls_tenants.Base.Outcome.{Error, returned, raised, configuration_error}
use django_rls_tenants.Conf.{
  null, text, items, item, no_items, pair, no_pairs, Pairs, Dict, new_conf, reload, unknown_keys,
  get_in, Entry, name, fields, allowlist_pairs,
}
use django_rls_tenants.Conf.Cached.{Read, reads, reads-reload}
use django_rls_tenants.Conf.Allowlist.{allowlist_setting, all_valid, allowlist_pairs_iff}

abbrev before : Dict
before =
    (codes "TENANT_MODEL", text (codes "app.Tenant")) ∷ (codes "GUC_PREFX", text (codes "x")) ∷ []

abbrev later : Dict
later = (codes "TENANT_MODEL", text (codes "app.Company")) ∷ []

abbrev model_in : Dict → Read
model_in dict = record { settings = dict; key = codes "TENANT_MODEL"; default = null }

reads-reload_example : reads (model_in before ∷ model_in later ∷ []) (reload new_conf) ≡ (
  map (λ (q : Read). get_in before q.key q.default) (model_in before ∷ model_in later ∷ []),
  unknown_keys before ++ [],
)
reads-reload_example = reads-reload new_conf (model_in before) (model_in later ∷ [])

abbrev company : Pairs
company =
    pair (text (codes "billing.Company"))
      (items (
        item (text (codes "vat")) (item (items (item (text (codes "country")) no_items)) no_items)))
      no_pairs

abbrev company_list : List (Text × List Entry)
company_list =
    (codes "billing.Company", name (codes "vat") ∷ fields (codes "country" ∷ []) ∷ []) ∷ []

allowlist_pairs_iff_example :
    ((allowlist_pairs company ≡ returned company_list)
      ↔ ((company ≡ allowlist_setting company_list) × (all_valid company_list ≡ true)))
    × ((e : Error) → allowlist_pairs company ≡ raised e → e ≡ configuration_error)
allowlist_pairs_iff_example = allowlist_pairs_iff company company_list
