-- ===== src/Prospective/Twin.antt =====
-- src/toxicjoin/prospective/twin.py: the facts that releases disclose, and what follows from them by
-- the inference rules. The hash of a fact and of a rule is a parameter. The budgets on the number of
-- facts and rules are written as in the code.
pub mod FixedPoint
pub mod Sorting
pub mod Least
mod Tests
use native.Mathlib.Decide.{ℕ_discrete}
use Prim.Native.String.{compare}
use text.Mathlib.Text.{is_le}
use toxicjoin.Prelude.{
  ℕ, zero, suc, String, String_eq, String-discrete, Bool, Bool_eq, true, false, not, Option, none,
  some, List, [], ◌∷◌, Eq, eq_of, ◌==◌, all, filter, map, contains, leb, length, Result, ok, raise,
  require, ◌>>=◌, ◌>>◌, if◌then◌else◌,
}
use mathlib.Core.Bool.{Bool-discrete}
use toxicjoin.Prelude.Dict
use toxicjoin.Prelude.Dict.{Dict}
use toxicjoin.Models.{
  SensitivityCategory, Category-discrete, direct_identifier, stable_pseudonym,
  ProjectionExposureKind, ProjectionExposureKind-discrete, raw_value, transformed_raw_value,
  group_key, aggregate_operand, aggregate_value, conditional_aggregate, nested_scope,
}

pub data DisclosureAtomKind : Type 0 where
  semantic_release : DisclosureAtomKind
  source_dataset : DisclosureAtomKind
  column_exposure : DisclosureAtomKind
  aggregate_function : DisclosureAtomKind
  minimum_group_size : DisclosureAtomKind
  cohort : DisclosureAtomKind
  category_presence : DisclosureAtomKind
  identifier_sensitive_coexposure : DisclosureAtomKind
  protected_cohort_variation : DisclosureAtomKind

unfoldable pub AtomKind-discrete : Discrete DisclosureAtomKind
AtomKind-discrete = hlevel

instance abbrev pub AtomKind_eq : Eq DisclosureAtomKind
AtomKind_eq = eq_of AtomKind-discrete

pub data ColumnExposureRole : Type 0 where
  output : ColumnExposureRole
  referenced : ColumnExposureRole
  join : ColumnExposureRole
  group_key_role : ColumnExposureRole

unfoldable pub Role-discrete : Discrete (Option ColumnExposureRole)
Role-discrete = hlevel

instance abbrev pub Role_eq : Eq (Option ColumnExposureRole)
Role_eq = eq_of Role-discrete

-- A fact without its hash.
pub record AtomFields : Type 0 where
  pub kind : DisclosureAtomKind
  pub release_semantic_sha256 : Option String
  pub dataset_urn : Option String
  pub column_key : Option String
  pub category : Option SensitivityCategory
  pub column_role : Option ColumnExposureRole
  pub exposure_kind : Option ProjectionExposureKind
  pub aggregate_function : Option String
  pub minimum_group_size : Option ℕ
  pub release_family_sha256 : Option String
  pub cohort_hmac_sha256 : Option String
  pub protected_release : Option Bool
  pub identifier_category : Option SensitivityCategory

pub record DisclosureAtom : Type 0 where
  pub fields : AtomFields
  pub open fields use *
  pub atom_sha256 : String

unfoldable pub DisclosureAtom-discrete : Discrete DisclosureAtom
DisclosureAtom-discrete = hlevel (
  String-discrete, ℕ_discrete, Bool-discrete, Category-discrete, ProjectionExposureKind-discrete,
  AtomKind-discrete, Role-discrete,
)

instance abbrev pub DisclosureAtom_eq : Eq DisclosureAtom
DisclosureAtom_eq = eq_of DisclosureAtom-discrete

-- The fields that a kind of fact does not populate.
abbrev pub empty_fields : DisclosureAtomKind → AtomFields
empty_fields kind = record {
  kind = kind;
  release_semantic_sha256 = none;
  dataset_urn = none;
  column_key = none;
  category = none;
  column_role = none;
  exposure_kind = none;
  aggregate_function = none;
  minimum_group_size = none;
  release_family_sha256 = none;
  cohort_hmac_sha256 = none;
  protected_release = none;
  identifier_category = none;
}

-- `_build_atom`
unfoldable pub build_atom : (AtomFields → String) → AtomFields → DisclosureAtom
build_atom hash fields = record { fields = fields; atom_sha256 = hash fields }

-- `_IDENTIFIER_CATEGORIES`, `_REVEALING_OUTPUT_KINDS` and `_LINKABLE_OUTPUT_KINDS`
abbrev pub identifier_categories : List SensitivityCategory
identifier_categories = direct_identifier ∷ stable_pseudonym ∷ []

abbrev pub linkable_output_kinds : List ProjectionExposureKind
linkable_output_kinds = raw_value ∷ transformed_raw_value ∷ group_key ∷ nested_scope ∷ []

abbrev pub revealing_output_kinds : List ProjectionExposureKind
revealing_output_kinds =
    raw_value ∷ transformed_raw_value ∷ group_key ∷ aggregate_operand ∷ aggregate_value
    ∷ conditional_aggregate ∷ nested_scope ∷ []

-- `_MAX_STATE_ATOMS` and `_MAX_INFERENCE_RULES`
abbrev pub max_state_atoms : ℕ
max_state_atoms = 4096

abbrev pub max_inference_rules : ℕ
max_inference_rules = 8192

-- The causes of a `DisclosureTwinError`; the last is of the model's loop, which never runs out.
pub data TwinError : Type 0 where
  composition_required composition_mismatch classification_mismatch : TwinError
  direct_budget rule_budget derived_budget hash_collision not_canonical out_of_fuel : TwinError

pub record DisclosureInferenceRule : Type 0 where
  pub antecedent_atom_sha256s : List String
  pub consequent : DisclosureAtom
  pub rule_sha256 : String

-- `sorted` by a text, which keeps the order of what has the same text.
module _ {T : Type 0} (by : T → String) where
  abbrev pub insert_by : T → List T → List T
  insert_by x [] = x ∷ []
  insert_by x (y ∷ ys) = if is_le (compare (by x) (by y)) then x ∷ y ∷ ys else y ∷ insert_by x ys

  abbrev pub sorted_by : List T → List T
  sorted_by [] = []
  sorted_by (x ∷ xs) = insert_by x (sorted_by xs)

-- {atom.atom_sha256: atom for atom in atoms}
abbrev pub index_from :
    Dict String DisclosureAtom → List DisclosureAtom → Dict String DisclosureAtom
index_from d [] = d
index_from d (a ∷ rest) = index_from (Dict.put a.atom_sha256 a d) rest

-- `tuple(atoms[key] for key in sorted(atoms))`
abbrev pub sorted_atoms : Dict String DisclosureAtom → List DisclosureAtom
sorted_atoms d = map (λ entry. entry.1) (sorted_by (λ entry. entry.0) d)

-- One turn over the rules: what is known, and whether that changed.
pub apply_rules :
    Dict String DisclosureAtom
    → Bool
    → List DisclosureInferenceRule
    → Result TwinError (Dict String DisclosureAtom × Bool)
apply_rules known changed [] = ok (known, changed)
apply_rules known changed (r ∷ rest) =
    if not (all (λ digest. Dict.has digest known) r.antecedent_atom_sha256s)
    then apply_rules known changed rest
    else elim (Dict.get r.consequent.atom_sha256 known) [
      | some existing ↦
          require (existing == r.consequent) hash_collision >>= λ _. apply_rules known changed rest
      | none ↦ apply_rules (Dict.put r.consequent.atom_sha256 r.consequent known) true rest
    ]

-- The `while changed` loop.
pub close_under :
    ℕ
    → Dict String DisclosureAtom
    → List DisclosureInferenceRule
    → Result TwinError (Dict String DisclosureAtom)
close_under zero known rules = raise out_of_fuel
close_under (suc fuel) known rules = apply_rules known false rules >>= λ turn.
    if turn.1 then close_under fuel turn.0 rules else ok turn.0

-- The facts that are not among the seed.
abbrev pub derived_from :
    Dict String DisclosureAtom → Dict String DisclosureAtom → List DisclosureAtom
derived_from seed known =
    map (λ entry. entry.1) (filter (λ entry. not (Dict.has entry.0 seed)) known)

-- `least_fixed_point`; each turn but the last knows the consequent of one more rule.
pub least_fixed_point :
    List DisclosureAtom → List DisclosureInferenceRule → Result TwinError (List DisclosureAtom)
least_fixed_point released_atoms rules =
    let seed = index_from [] released_atoms in
    close_under (suc (length rules)) seed (sorted_by (λ r. r.rule_sha256) rules) >>= λ known.
    let derived = derived_from seed known in
    require (leb (length derived) max_state_atoms) derived_budget >>= λ _.
    ok (sorted_by (λ a. a.atom_sha256) derived)
