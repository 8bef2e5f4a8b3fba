-- ===== src/Disclosure/Ledger/Operations/Tests.antt =====
-- The cumulative policy and the ledger over a concrete release.
use toxicjoin.Prelude.{
  ◌≡◌, ◌↔◌, ◌≤◌, false≢true, refl, arith, String, String_eq, true, false, ◌&&◌, ◌||◌, not, none,
  some, [], ◌∷◌, any, ltb, ==_self, ok, raise,
}
use mathlib.Core.Bool.{decide}
use toxicjoin.Models.{quasi_identifier}
use toxicjoin.Disclosure.{
  DisclosureBudget, first_protected_release, cumulative_budget_exhausted, DisclosureScope,
  DisclosureComposition, DisclosureEvent, DisclosureRecord, DisclosureCompositionDecision,
  Externals,
}
use toxicjoin.Disclosure.Composition.{
  build_composition_metadata, validate_event_composition, is_protected_release, scan_history, judge,
  evaluate_composition_history,
}
use toxicjoin.Disclosure.Composition.Budget.{is_legacy, active_protected, evaluate-allowed}
use toxicjoin.Disclosure.Ledger.{
  replayed, Database, Fresh, records_for_scope, existing_receipt, commitment_of, new_record, row_of,
  append_event, insert_row, to_records, check_chain, max_sequence, row_to_record,
  is_authorization_id, is_hex_after,
}
use toxicjoin.Disclosure.Ledger.Rows.{row_to_record-new_record}
use toxicjoin.Disclosure.Ledger.Chain.{read_back, read_elsewhere}
use toxicjoin.Disclosure.Ledger.Operations.{
  evaluate_and_commit, commit_bound, bind_event, release, append_new, verify_commitment,
  claim_commitment, record_for_commitment, verify_authorization_claim,
}
use toxicjoin.Disclosure.Ledger.Operations.Safety.{Kept, commit_keeps, commit_within}
use toxicjoin.Disclosure.Ledger.Operations.Checked.{commit_verifies}
use toxicjoin.Disclosure.Ledger.Operations.Claims.{claim_once, claim_not_shared, verify-claim}

-- Functions in place of the hashes and of the SQL library.
abbrev pub ext : Externals
ext = record {
  event_sha256 = λ e. e.receipt_id;
  record_sha256 = λ p. p.record_id;
  cohort_hmac = λ s. s;
  canonicalize_cohort_sql = λ s. some s;
  casefold = λ s. s;
}

abbrev budget : DisclosureBudget
budget = record { max_protected_releases = 1; window = 100 }

abbrev scope : DisclosureScope
scope = record {
  principal_id = "alice";
  agent_id = none;
  subject = record {
    field_path = "member";
    category = quasi_identifier;
    dataset_urns = [];
    governance_domains = [];
    namespace_sha256 = "n";
  };
  scope_sha256 = "s";
}

abbrev other_scope : DisclosureScope
other_scope = record scope { principal_id = "bob"; scope_sha256 = "t" }

abbrev pub event : DisclosureEvent
event = record {
  scope = scope;
  audit_identity = record { credential_id = "c" };
  receipt_id = "r";
  policy_version = "1.0.0";
  semantic = record {
    source_dataset_urns = [];
    outputs = [];
    referenced_columns = [];
    join_columns = [];
    group_keys = [];
    aggregate_functions = "count" ∷ [];
    minimum_group_size_present = none;
    semantic_sha256 = "f";
  };
  composition = none;
}

abbrev composition : DisclosureComposition
composition = record {
  protected_release = true;
  release_family_sha256 = "f";
  cohort_hmac_sha256 = "SELECT 1";
}

abbrev bound : DisclosureEvent
bound = record event { composition = some composition }

abbrev fresh : Fresh
fresh = record { created_at = 10; record_id = "dl" }

abbrev nothing : Database
nothing = record { rows = []; claims = [] }

abbrev pub first : DisclosureRecord
first = new_record ext fresh [] [] bound

abbrev pub one : Database
one = record { rows = row_of first ∷ []; claims = [] }

abbrev allowed : DisclosureCompositionDecision
allowed = record {
  allowed = true;
  rule = first_protected_release;
  protected_release = true;
  prior_protected_count = 0;
  commitment = some (commitment_of first);
}

program : Unit {0}
unfolding evaluate_and_commit commit_bound bind_event release append_new build_composition_metadata
    validate_event_composition is_protected_release scan_history judge evaluate_composition_history
    records_for_scope existing_receipt append_event insert_row to_records check_chain new_record
    row_of commitment_of max_sequence row_to_record decide
program = tt

committed : evaluate_and_commit ext budget 10 fresh nothing event "SELECT 1" ≡ ok (allowed, one)
unfolding program
committed = refl

written : append_event ext fresh [] [] bound ≡ ok (first, row_of first ∷ [])
unfolding program
written = refl

judged :
    evaluate_composition_history budget 20 (first ∷ []) bound
    ≡ ok (record {
      allowed = false;
      rule = cumulative_budget_exhausted;
      protected_release = true;
      prior_protected_count = 1;
    })
unfolding program
judged = refl

evaluate-allowed_example : false ≡ (
    not (any is_legacy (first ∷ []))
    && (not (is_protected_release bound.semantic)
        || ltb (active_protected budget 20 (first ∷ [])) 1))
evaluate-allowed_example =
    evaluate-allowed budget 20 (first ∷ []) bound
      (record {
        allowed = false;
        rule = cumulative_budget_exhausted;
        protected_release = true;
        prior_protected_count = 1;
      })
      judged

read_nothing : records_for_scope ext [] scope ≡ ok []
unfolding program
read_nothing = refl

read_back_example : records_for_scope ext (row_of first ∷ []) scope ≡ ok (first ∷ [])
read_back_example = read_back ext fresh [] (row_of first ∷ []) [] bound first written read_nothing

read_elsewhere_example :
    records_for_scope ext (row_of first ∷ []) other_scope ≡ records_for_scope ext [] other_scope
read_elsewhere_example =
    read_elsewhere ext fresh [] (row_of first ∷ []) [] bound first written other_scope
      (λ e. false≢true ((String_eq.beq_iff "t" "s").1 e))

commit_keeps_example : Kept ext nothing event allowed one
commit_keeps_example =
    commit_keeps ext budget 10 fresh nothing event "SELECT 1" allowed one committed

commit_within_example : active_protected budget 10 (first ∷ []) ≤ 1
commit_within_example =
    commit_within ext budget 10 fresh nothing event "SELECT 1" allowed one committed [] (first ∷ [])
      read_nothing (omega arith) read_back_example

commit_verifies_example :
    (r : DisclosureRecord) × (commitment_of r ≡ commitment_of first)
    × (verify_commitment ext one (commitment_of first) event "SELECT 1" ≡ ok r)
commit_verifies_example =
    commit_verifies ext budget 10 fresh nothing event "SELECT 1" allowed one (commitment_of first)
      committed refl refl

-- The record verifies for its event and SQL.
pub verifies :
    (r : DisclosureRecord) × (commitment_of r ≡ commitment_of first)
    × (verify_commitment ext one (commitment_of first) event "SELECT 1" ≡ ok r)
verifies =
    commit_verifies ext budget 10 fresh nothing event "SELECT 1" allowed one (commitment_of first)
      committed refl refl

abbrev pub authorization : String
authorization = "tj_auth_0123456789abcdef0123456789abcdef"

abbrev pub claimed_once : Database
claimed_once = record one {
  claims =
      record {
        record_id = "dl";
        authorization_id = authorization;
        receipt_id = "r";
        commitment_content_sha256 = "dl";
      }
      ∷ [];
}

valid : validate_event_composition bound ≡ ok tt
unfolding program
valid = refl

readable : row_to_record ext (row_of first) ≡ ok first
readable = row_to_record-new_record ext fresh [] [] bound valid

found : record_for_commitment ext one (commitment_of first) ≡ ok first
unfolding record_for_commitment row_of new_record commitment_of
found = rw (readable, ==_self (commitment_of first)) refl

pub claimed : claim_commitment ext one (commitment_of first) authorization ≡ ok claimed_once
unfolding claim_commitment is_authorization_id is_hex_after new_record
claimed = rw found refl

claim_once_example :
    claim_commitment ext claimed_once
      (commitment_of first)
      "tj_auth_ffffffffffffffffffffffffffffffff"
    ≡ raise replayed
unfolding is_authorization_id is_hex_after
claim_once_example =
    claim_once ext one claimed_once (commitment_of first) authorization claimed
      "tj_auth_ffffffffffffffffffffffffffffffff" refl

claim_not_shared_example :
    ¬ (claim_commitment ext claimed_once (commitment_of first) authorization ≡ ok claimed_once)
claim_not_shared_example =
    claim_not_shared ext one claimed_once (commitment_of first) authorization claimed
      (commitment_of first) claimed_once

verify-claim_example :
    (verify_authorization_claim ext claimed_once (commitment_of first) authorization ≡ ok tt)
    ↔ (authorization ≡ authorization)
verify-claim_example =
    verify-claim ext one claimed_once (commitment_of first) authorization claimed authorization
