-- ===== src/Policy/Model.antt =====
-- What the policies read of Django's models: their `_meta`, and the registry that `get_model` asks.
-- Django is no part of the repository: these are its answers.
use django_rls_tenants.Base.Core.{Bool, Option}
use django_rls_tenants.Base.Text.{Text}

-- The model that a foreign key points at, by its `label_lower` and its concrete model's, or the name
-- of one that is not resolved.
pub data Target : Type 0 where
  resolved : Text → Text → Target
  unresolved : Text → Target

-- `related_model`, the column, and the column of `target_field`.
pub record ForeignKey : Type 0 where
  pub related_model : Target
  pub column : Text
  pub target_column : Text

pub data Field : Type 0 where
  foreign_key : ForeignKey → Field
  other_field : Field

-- `has_rls_constraint`: one of `_meta.constraints` is an `RLSConstraint`.
pub record Model : Type 0 where
  pub label_lower : Text
  pub db_table : Text
  pub get_field : Text → Option Field
  pub is_proxy : Bool
  pub has_rls_constraint : Bool

-- `apps.get_model(path)`; `none` for a LookupError.
abbrev pub Apps : Type 0
Apps = Text → Option Model
