-- ===== src/Policy/Predicates.antt =====
-- django_rls_tenants/rls/predicates.py: the predicates of a sharing policy.
use django_rls_tenants.Base.Core.{
  ℕ, Bool, true, false, ◌&&◌, ◌||◌, Option, none, some, List, [], ◌∷◌, ◌++◌, ◌==◌, if◌then◌else◌,
}
use django_rls_tenants.Base.Text.{Text, codes, is_empty, is_space, text_eq, starts_with}
use django_rls_tenants.Base.Outcome.{
  Outcome, returned, raised, value_error, type_error, ◌>>=◌, ◌>>◌,
}
use django_rls_tenants.Policy.Names.{validate_field_name, validate_model_path}
use django_rls_tenants.Policy.Model.{
  Target, resolved, unresolved, ForeignKey, foreign_key, other_field, Field, Model, Apps,
}

-- `_UNSAFE_IDENTIFIER_CHARS`
abbrev pub is_unsafe_char : ℕ → Bool
is_unsafe_char c = c == b'"' || (c == b'\'' || (c == b'\\' || (c == b'$' || c == 0)))

unfoldable pub any_char : (ℕ → Bool) → Text → Bool
any_char p [] = false
any_char p (c ∷ s) = p c || any_char p s

-- `_quoted`
unfoldable pub quoted : Text → Outcome Text
unfolding any_char
quoted name =
    if any_char is_unsafe_char name
    then raised value_error
    else returned (codes "\"" ++ (name ++ codes "\""))

-- The `isinstance` check of `_foreign_key`, of a field that is there.
abbrev pub as_foreign_key : Option Field → Outcome ForeignKey
as_foreign_key none = raised value_error
as_foreign_key (some other_field) = raised value_error
as_foreign_key (some (foreign_key key)) = returned key

-- `_foreign_key`
unfoldable pub foreign_key_of : Model → Text → Outcome ForeignKey
foreign_key_of model name = as_foreign_key (model.get_field name)

pub data Predicate : Type 0 where
  shared_with : Text → Text → Text → Predicate
  tenant_field : Text → Predicate
  raw_predicate : Text → Predicate

-- `SharedWith(through=..., fk=..., tenant_fk=...)`
unfoldable pub new_shared_with : Text → Text → Text → Outcome Predicate
unfolding validate_model_path validate_field_name
new_shared_with through fk tenant_fk = do
  validate_model_path through
  validate_field_name fk
  validate_field_name tenant_fk
  returned (shared_with through fk tenant_fk)

-- `TenantField(field)`
unfoldable pub new_tenant_field : Text → Outcome Predicate
unfolding validate_field_name
new_tenant_field field = validate_field_name field >> returned (tenant_field field)

-- `not sql.strip()`
unfoldable pub is_blank : Text → Bool
unfolding is_space
is_blank [] = true
is_blank (c ∷ s) = is_space c && is_blank s

-- `token in sql`
unfoldable pub contains : Text → Text → Bool
unfolding starts_with
contains token [] = is_empty token
contains token (c ∷ s) = starts_with (c ∷ s) token || contains token s

-- `_UNSAFE_RAW_SQL`
abbrev pub unsafe_raw_sql : List Text
unsafe_raw_sql = codes ";" ∷ codes "--" ∷ codes "/*" ∷ codes "$" ∷ (0 ∷ []) ∷ []

-- The loop over the tokens.
unfoldable pub contains_one_of : List Text → Text → Bool
unfolding contains
contains_one_of [] sql = false
contains_one_of (token ∷ tokens) sql = contains token sql || contains_one_of tokens sql

-- `RawPredicate(sql)`
unfoldable pub new_raw_predicate : Text → Outcome Predicate
unfolding is_blank contains_one_of
new_raw_predicate sql =
    if is_blank sql
    then raised value_error
    else if contains_one_of unsafe_raw_sql sql
    then raised value_error
    else returned (raw_predicate sql)

-- `sql.replace("%", "%%")`
unfoldable pub double_percent : Text → Text
double_percent [] = []
double_percent (c ∷ s) = if c == b'%' then c ∷ c ∷ double_percent s else c ∷ double_percent s

abbrev pub through_alias : Text
through_alias = codes "\"rls_shared\""

-- `apps.get_model(self.through)`
abbrev pub model_found : {A : Type 0} → Option A → Outcome A
model_found none = raised value_error
model_found (some a) = returned a

-- The foreign key points at the model of the policy.
abbrev pub check_target : Target → Model → Outcome (Unit {0})
check_target (unresolved name) model = raised value_error
check_target (resolved label_lower concrete_label) model =
    if text_eq concrete_label model.label_lower then returned tt else raised value_error

-- The condition of `SharedWith`, of names that are quoted.
unfoldable pub exists_shared : Text → Text → Text → Text → Text → Text → Text
exists_shared through_table fk_column table target_column tenant_column tenant_value =
    codes "EXISTS (SELECT 1 FROM "
    ++ (through_table
        ++ (codes " AS "
            ++ (through_alias
                ++ (codes " WHERE "
                    ++ (through_alias
                        ++ (codes "."
                            ++ (fk_column
                                ++ (codes " = "
                                    ++ (table
                                        ++ (codes "."
                                            ++ (target_column
                                                ++ (codes " AND "
                                                    ++ (through_alias
                                                        ++ (codes "."
                                                            ++ (tenant_column
                                                            ++ (codes " = "
                                                            ++ (tenant_value
                                                            ++ codes ")")))))))))))))))))

-- `SharedWith.policy_sql`
unfoldable pub shared_with_sql : Apps → Model → Text → Text → Text → Text → Outcome Text
unfolding foreign_key_of quoted
shared_with_sql apps model tenant_value through fk tenant_fk = do
  through_model ← model_found (apps through)
  fk_field ← foreign_key_of through_model fk
  check_target fk_field.related_model model
  tenant_fk_field ← foreign_key_of through_model tenant_fk
  through_table ← quoted through_model.db_table
  table ← quoted model.db_table
  fk_column ← quoted fk_field.column
  target_column ← quoted fk_field.target_column
  tenant_column ← quoted tenant_fk_field.column
  returned (exists_shared through_table fk_column table target_column tenant_column tenant_value)

-- `TenantField.policy_sql`
unfoldable pub tenant_field_sql : Model → Text → Text → Outcome Text
unfolding foreign_key_of quoted
tenant_field_sql model tenant_value field = do
  key ← foreign_key_of model field
  table ← quoted model.db_table
  column ← quoted key.column
  returned (table ++ (codes "." ++ (column ++ (codes " = " ++ tenant_value))))

-- `RawPredicate.policy_sql`
unfoldable pub raw_sql : Text → Text
unfolding double_percent
raw_sql sql = codes "(" ++ (double_percent sql ++ codes ")")

-- `policy_sql` of a predicate
unfoldable pub policy_sql : Apps → Model → Text → Predicate → Outcome Text
unfolding shared_with_sql tenant_field_sql raw_sql
policy_sql apps model tenant_value (shared_with through fk tenant_fk) =
    shared_with_sql apps model tenant_value through fk tenant_fk
policy_sql apps model tenant_value (tenant_field field) = tenant_field_sql model tenant_value field
policy_sql apps model tenant_value (raw_predicate sql) = returned (raw_sql sql)

-- `_predicates_sql`
unfoldable pub predicates_sql : Apps → Model → Text → List Predicate → Outcome (List Text)
unfolding policy_sql
predicates_sql apps model tenant_value [] = returned []
predicates_sql apps model tenant_value (predicate ∷ predicates) = do
  sql ← policy_sql apps model tenant_value predicate
  more ← predicates_sql apps model tenant_value predicates
  returned (sql ∷ more)

-- What `extra_predicates` is given: predicates, or anything else.
pub data Given : Type 0 where
  predicate : Predicate → Given
  something_else : Given

-- `_validated_predicates` of a list
unfoldable pub all_predicates : List Given → Outcome (List Predicate)
all_predicates [] = returned []
all_predicates (something_else ∷ given) = raised type_error
all_predicates (predicate p ∷ given) = do more ← all_predicates given; returned (p ∷ more)

-- `predicates or []`
abbrev pub or_empty {ℓ} : {A : Type ℓ} → Option (List A) → List A
or_empty none = []
or_empty (some l) = l

unfoldable pub validated_predicates : Option (List Given) → Outcome (List Predicate)
unfolding all_predicates
validated_predicates given = all_predicates (or_empty given)

-- `Predicate.__eq__`: the same class, and the same `_key()`.
unfoldable pub predicate_eq : Predicate → Predicate → Bool
unfolding text_eq
predicate_eq (shared_with t f k) (shared_with t' f' k') =
    text_eq t t' && (text_eq f f' && text_eq k k')
predicate_eq (tenant_field f) (tenant_field f') = text_eq f f'
predicate_eq (raw_predicate s) (raw_predicate s') = text_eq s s'
predicate_eq _ _ = false
