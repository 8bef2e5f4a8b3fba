-- ===== src/Disclosure/Ledger.antt =====
-- src/toxicjoin/disclosure/ledger.py: the rows and claims of the database, and the operations on them.
-- A table is the list of its rows in the order of insertion. An operation that raises rolls its
-- transaction back: it returns no new state, and the caller keeps the old one.
pub mod Rows
pub mod Chain
pub mod Operations
use Prim.Native.String.{len}
use Prim.Native.Char.{code}
use text.Mathlib.Text.{starts_with}
use toxicjoin.Prelude.{
  ℕ, zero, suc, ◌+◌, String, String_eq, Bool, true, false, ◌&&◌, ◌||◌, not, Option, none, some,
  List, [], ◌∷◌, ◌++◌, Eq, eq_of, String-discrete, map, leb, nat_eq, ℕ_eq, ◌==◌, any, all, filter,
  get_head?, get_last?, Result, ok, raise, require, ◌>>=◌, ◌>>◌, if◌then◌else◌,
}
use toxicjoin.Models.{Category_eq}
use toxicjoin.Disclosure.{
  DisclosureScope, DisclosureEvent, DisclosureRecord, Provisional, DisclosureCommitment, Externals,
}
use toxicjoin.Disclosure.Composition.{DisclosureCompositionError, validate_event_composition}

-- The exceptions; `unique_violated` is the database's own.
pub data LedgerError : Type 0 where
  conflict : LedgerError
  integrity : LedgerError
  replayed : LedgerError
  value_error : LedgerError
  missing_key : LedgerError
  unique_violated : LedgerError
  invalid_composition : DisclosureCompositionError → LedgerError

-- A row of `disclosure_records`: its columns and the payload that its JSON holds.
pub record Row : Type 0 where
  pub sequence : ℕ
  pub record_id : String
  pub scope_sha256 : String
  pub receipt_id : String
  pub event_sha256 : String
  pub previous_content_sha256 : Option String
  pub content_sha256 : String
  pub payload : DisclosureRecord

-- A row of `disclosure_authorization_claims`.
pub record Claim : Type 0 where
  pub record_id : String
  pub authorization_id : String
  pub receipt_id : String
  pub commitment_content_sha256 : String

pub record Database : Type 0 where
  pub rows : List Row
  pub claims : List Claim

unfoldable pub OptionString-discrete : Discrete (Option String)
OptionString-discrete = hlevel String-discrete

instance abbrev pub OptionString_eq : Eq (Option String)
OptionString_eq = eq_of OptionString-discrete

abbrev pub lift {ℓ} : {A : Type ℓ} → Result DisclosureCompositionError A → Result LedgerError A
lift (ok a) = ok a
lift (raise e) = raise (invalid_composition e)

-- An error of the composition rules that is reported as one of integrity.
abbrev pub as_integrity {ℓ} :
    {A : Type ℓ} → Result DisclosureCompositionError A → Result LedgerError A
as_integrity (ok a) = ok a
as_integrity (raise e) = raise integrity

-- `DisclosureRecord.validate_hashes`
abbrev pub has_valid_hashes : Externals → DisclosureRecord → Bool
has_valid_hashes ext r =
    r.event_sha256 == ext.event_sha256 r.event && r.content_sha256 == ext.record_sha256 r.base

-- `indexed != expected` of `_row_to_record`, negated.
abbrev pub is_indexed : Row → Bool
is_indexed row =
    row.sequence == row.payload.sequence
    && row.record_id == row.payload.record_id
    && row.scope_sha256 == row.payload.event.scope.scope_sha256
    && row.receipt_id == row.payload.event.receipt_id
    && row.event_sha256 == row.payload.event_sha256
    && row.previous_content_sha256 == row.payload.previous_content_sha256
    && row.content_sha256 == row.payload.content_sha256

pub row_to_record : Externals → Row → Result LedgerError DisclosureRecord
row_to_record ext row = do
  require (has_valid_hashes ext row.payload) integrity
  as_integrity (validate_event_composition row.payload.event)
  require (is_indexed row) integrity
  ok row.payload

pub same_privacy_scope : Externals → DisclosureScope → DisclosureScope → Bool
same_privacy_scope ext left right =
    left.scope_sha256 == right.scope_sha256
    && left.principal_id == right.principal_id
    && left.agent_id == right.agent_id
    && left.subject.namespace_sha256 == right.subject.namespace_sha256
    && ext.casefold left.subject.field_path == ext.casefold right.subject.field_path
    && left.subject.category == right.subject.category

pub to_records : Externals → List Row → Result LedgerError (List DisclosureRecord)
to_records ext [] = ok []
to_records ext (row ∷ rows) =
    let rest = to_records ext rows in do r ← row_to_record ext row; rs ← rest; ok (r ∷ rs)

-- The loop that follows the hash chain of a scope.
pub check_chain :
    Externals
    → DisclosureScope
    → Option String
    → List DisclosureRecord
    → Result LedgerError (Unit {0})
check_chain ext scope previous [] = ok tt
check_chain ext scope previous (r ∷ rs) =
    let rest = check_chain ext scope (some r.content_sha256) rs in
    require (same_privacy_scope ext r.event.scope scope) integrity
    >> (require (r.previous_content_sha256 == previous) integrity >> rest)

pub records_for_scope :
    Externals → List Row → DisclosureScope → Result LedgerError (List DisclosureRecord)
records_for_scope ext rows scope = do
  records ← to_records ext (filter (λ row. row.scope_sha256 == scope.scope_sha256) rows)
  check_chain ext scope none records
  ok records

abbrev to_optional_record : Externals → Option Row → Result LedgerError (Option DisclosureRecord)
to_optional_record ext none = ok none
to_optional_record ext (some row) = do r ← row_to_record ext row; ok (some r)

pub existing_receipt : Externals → List Row → String → Result LedgerError (Option DisclosureRecord)
existing_receipt ext rows receipt_id =
    to_optional_record ext (get_head? (filter (λ row. row.receipt_id == receipt_id) rows))

pub commitment_of : DisclosureRecord → DisclosureCommitment
commitment_of r = record {
  record_id = r.record_id;
  receipt_id = r.event.receipt_id;
  scope_sha256 = r.event.scope.scope_sha256;
  event_sha256 = r.event_sha256;
  content_sha256 = r.content_sha256;
}

-- SELECT COALESCE(MAX(sequence), 0)
pub max_sequence : List Row → ℕ
max_sequence [] = 0
max_sequence (row ∷ rows) =
    let rest = max_sequence rows in if leb row.sequence rest then rest else row.sequence

-- What the clock and `uuid4` give to one append.
pub record Fresh : Type 0 where
  pub created_at : ℕ
  pub record_id : String

abbrev pub content_of : Option DisclosureRecord → Option String
content_of none = none
content_of (some r) = some r.content_sha256

abbrev pub schema_version_of : DisclosureEvent → String
schema_version_of event = elim event.composition [ none ↦ "1.0" | some composition ↦ "1.1" ]

-- The record that `_append_event_connection` builds.
pub new_record :
    Externals → Fresh → List Row → List DisclosureRecord → DisclosureEvent → DisclosureRecord
new_record ext fresh rows history event =
    let provisional : Provisional = record {
      schema_version = schema_version_of event;
      record_id = fresh.record_id;
      sequence = max_sequence rows + 1;
      created_at = fresh.created_at;
      event = event;
      event_sha256 = ext.event_sha256 event;
      previous_content_sha256 = content_of (get_last? history);
    } in
    record { base = provisional; content_sha256 = ext.record_sha256 provisional }

pub row_of : DisclosureRecord → Row
row_of r = record {
  sequence = r.sequence;
  record_id = r.record_id;
  scope_sha256 = r.event.scope.scope_sha256;
  receipt_id = r.event.receipt_id;
  event_sha256 = r.event_sha256;
  previous_content_sha256 = r.previous_content_sha256;
  content_sha256 = r.content_sha256;
  payload = r;
}

-- Two rows agree on one of the three unique columns of the table.
abbrev pub clashes : Row → Row → Bool
clashes new row =
    row.sequence == new.sequence
    || row.record_id == new.record_id
    || row.receipt_id == new.receipt_id

-- INSERT
pub insert_row : Row → List Row → Result LedgerError (List Row)
insert_row new rows = do
  require (not (any (clashes new) rows)) unique_violated
  ok (rows ++ new ∷ [])

pub append_event :
    Externals
    → Fresh
    → List Row
    → List DisclosureRecord
    → DisclosureEvent
    → Result LedgerError (DisclosureRecord × List Row)
append_event ext fresh rows history event =
    let new = new_record ext fresh rows history event in
    do
      lift (validate_event_composition event)
      rows' ← insert_row (row_of new) rows
      ok (new, rows')

abbrev pub is_hex : ℕ → Bool
is_hex c = (leb b'0' c && leb c b'9') || (leb b'a' c && leb c b'f')

-- The codes of the text behind its first n characters are hexadecimal digits.
pub is_hex_after : ℕ → String → Bool
is_hex_after n String.[] = true
is_hex_after zero (String.◌∷◌ c s) = is_hex (code c) && is_hex_after zero s
is_hex_after (suc n) (String.◌∷◌ c s) = is_hex_after n s

-- ^tj_auth_[0-9a-f]{32}$
pub is_authorization_id : String → Bool
is_authorization_id s = starts_with s "tj_auth_" && nat_eq (len s) 40 && is_hex_after 8 s
