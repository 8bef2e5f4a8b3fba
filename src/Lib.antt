-- ===== src/Lib.antt =====
-- ToxicJoin decides whether an analytical query may run over governed data. A query is analysed, its
-- columns are resolved to sensitivity categories, the policy engine blocks, rewrites or allows it, and
-- a release that discloses protected data is counted in a ledger against a cumulative budget. The API
-- in front of it authenticates keys and limits traffic and body sizes.
--
-- The files, by the part that they model:
-- Prelude: the names that all share: tests, lists, dictionaries as association lists, results.
-- Models: src/toxicjoin/models.py, the data of queries, contexts and decisions. Models/Validation has
-- the validators of the models.
-- Policy: src/toxicjoin/policy/engine.py, the helpers of the engine over the governed context.
-- Policy/Engine is `PolicyEngine.evaluate` by its branches (`blocked`, `untrusted_subject`,
-- `small_groups`, `released`); Policy/Conditional is about conditional aggregates, Policy/Engine/Outcome
-- about its decision, Policy/Engine/Reasons about its reason codes and Policy/Engine/Repair about the
-- rewrite that it asks for.
-- Auth: src/toxicjoin/auth.py, `ApiKeyAuthenticator` with `__init__` as `new_authenticator`.
-- Limits: src/toxicjoin/api/limits.py. Limits/Principals is `PrincipalTrafficLimiter.acquire`, the part
-- before the call as `acquire` and the `finally` block as `finish`; Limits/AuthFailures is
-- `AuthFailureLimiter`; Limits/Bodies has the two body middlewares.
-- Disclosure: src/toxicjoin/disclosure/models.py. Disclosure/Composition is the cumulative policy of
-- src/toxicjoin/disclosure/composition.py, and Disclosure/Ledger the tables of
-- src/toxicjoin/disclosure/ledger.py, with the methods of `DisclosureLedger` in
-- Disclosure/Ledger/Operations.
-- Context: src/toxicjoin/context/models.py and src/toxicjoin/context/governance.py, the governed context
-- of a query and its binding to a snapshot; a resolver is a record of what its methods return.
-- Execution: src/toxicjoin/execute/authorization.py. Execution/Digest has the payloads that are hashed,
-- and Execution/Authorizer `ExecutionAuthorizer`: `issue` and `verify_and_consume`, which call the
-- policy engine, the context and the ledger, with the consumed identifiers as state.
-- Prospective: src/toxicjoin/prospective/. Prospective/Search is `check_prospective_privacy` of
-- ppmc_search.py over a record `Model` of the transitions, the oracle, the predicates and the temporal
-- paths that it calls; its result is an `Outcome`. Prospective/Search/Paths has the runs that it is
-- about, and Prospective/Search/Trace the traces of trace.py with their validator. Prospective/Temporal
-- has the temporal paths and the keys of ppmc_search.py, which fill the record. Prospective/Forbidden is
-- `evaluate_forbidden_state` of forbidden.py with its six predicates, and twin.py is
-- Prospective/Twin with the facts and `least_fixed_point`, Prospective/Direct with
-- `direct_atoms_for_release`, and Prospective/Rules with `instantiate_disclosure_inference_rules`.
--
-- A method takes the state that it reads and returns the state that it leaves; an exception is a value
-- of `Result`, and a transaction that raises returns no new state, which is its rollback. A table is
-- the list of its rows in the order of insertion, which is the order of their sequence numbers. Times
-- are numbers of clock ticks, so that a comparison with `now - window` is written with a sum, and the
-- skew of a second and the tolerance of a nanosecond are numbers of ticks. The loops go through lists,
-- but for the search: its fuel is the budget of states, since each turn takes one node off the queue
-- and each node that joins it takes one of the budget; and for the closure under inference rules, where
-- each turn but the last knows the consequent of one more rule.
--
-- What the program takes from outside is a parameter: the hashes and the keyed hash, the SQL library,
-- `str.casefold`, `str.strip`, `bytes.lower`, `str.upper`, `int` of a text, the clock and fresh
-- identifiers. The event that a capability commits to is built by src/toxicjoin/disclosure/semantic.py,
-- which is a parameter too. No theorem assumes anything of the hashes but two on the search: one that
-- its keys tell reached nodes apart (`IsFaithful`), and the other, which shows that of the program's
-- keys, that the hashes of reached states and of the pairs of a key do not collide.
--
-- Not modelled: the pipeline with rewrite and verification, the executor, the actions of the
-- prospective checker, the states it builds from a history and the hash of its transcript,
-- receipts, proofs and evidence; the SQL analysis, which walks the trees of a library; the creation
-- of the SQLite schema, key files, environment variables, HTTP with the headers of a response, and
-- DataHub.
pub mod Auth
pub mod Context
pub mod Disclosure
pub mod Execution
pub mod Limits
pub mod Models
pub mod Policy
pub mod Prelude
pub mod Prospective
