-- ===== src/Conf/Cached.antt =====
-- Reads of the settings (django_rls_tenants/tenants/conf.py) between two reloads.
use django_rls_tenants.Base.Core.{◌≡◌, refl, true, some, List, [], ◌∷◌, ◌++◌, map}
use django_rls_tenants.Base.Text.{Text}
use django_rls_tenants.Base.Outcome.{Outcome}
use django_rls_tenants.Conf.{
  Setting, Dict, ConfState, unknown_keys, reload, warn_unknown_keys, config, get_in, get,
}

-- A read of a key, with its default, while the settings are these.
pub record Read : Type 0 where
  pub settings : Dict
  pub key : Text
  pub default : Setting

-- Reads one after the other: what they return, and all keys that they warn of.
unfoldable pub reads : List Read → ConfState → List (Outcome Setting) × List Text
unfolding get
reads [] s = ([], [])
reads (r ∷ rs) s =
    let ((value, warned), s') = get r.settings r.key r.default s in
    let (values, more) = reads rs s' in (value ∷ values, warned ++ more)

-- The state after the first read.
abbrev pub filled : Dict → ConfState
filled dict = record { config_cache = some dict; unknown_keys_checked = true }

reads-filled :
    (dict : Dict) (rs : List Read)
    → reads rs (filled dict) ≡ (map (λ (r : Read). get_in dict r.key r.default) rs, [])
unfolding reads get config warn_unknown_keys
reads-filled dict [] = refl
reads-filled dict (r ∷ rs) =
    λ i. (get_in dict r.key r.default ∷ (reads-filled dict rs i).0, (reads-filled dict rs i).1)

-- After a reload, any sequence of reads of settings, at least one, while RLS_TENANTS itself may
-- change between them, returns what the dict of the first read holds, each with its own default or
-- the error of a missing value, and warns exactly once, of the unknown keys of that dict.
pub reads-reload :
    (s : ConfState) (r : Read) (rs : List Read)
    → reads (r ∷ rs) (reload s) ≡ (
      map (λ (q : Read). get_in r.settings q.key q.default) (r ∷ rs),
      unknown_keys r.settings ++ [],
    )
unfolding reads get config warn_unknown_keys reload
reads-reload s r rs = λ i. (
  get_in r.settings r.key r.default ∷ (reads-filled r.settings rs i).0,
  unknown_keys r.settings ++ (reads-filled r.settings rs i).1,
)
