-- ===== src/Execution/Authorizer/SingleUse.antt =====
-- Runs of the calls of `ExecutionAuthorizer` in src/toxicjoin/execute/authorization.py, one after
-- the other as its lock and the ledger's transactions order them.
use toxicjoin.Prelude.{
  ℕ, ◌≤◌, ◌<◌, ◌≡◌, ◌⊎◌, inl, inr, String, String_eq, Option, some, List, [], ◌∷◌, arith, ==_self,
  ltb, Bool-cases, ok, raise, Result-cases,
}
use toxicjoin.Prelude.Dict
use toxicjoin.Prelude.Dict.{Dict, get-put}
use toxicjoin.Models.{QueryPlan}
use toxicjoin.Context.{GovernanceContextBinding}
use toxicjoin.Disclosure.{DisclosureCommitment}
use toxicjoin.Execution.{ExecutionAuthorization, Request, Moment, State}
use toxicjoin.Execution.Authorizer.{Authority, issue, verify, live, consume, verify_and_consume}
use toxicjoin.Execution.Authorizer.Issued.{IsIssued-of}
use toxicjoin.Execution.Authorizer.Sound.{
  verify_and_consume-eq-ok, verify_and_consume-IsGoverned, consume-eq-ok,
}

pub data Call : Type 0 where
  issuing : Moment → Request → Option DisclosureCommitment → Option GovernanceContextBinding → Call
  verifying : Moment → ExecutionAuthorization → Request → Call

abbrev pub time : Call → ℕ
time (issuing m req commitment expected) = m.now
time (verifying m auth req) = m.now

-- The state after a call; an error of `issue` leaves it as it was.
abbrev pub step : Authority → State → Call → State
step a st (issuing m req commitment expected) = elim (issue a m st req commitment expected) [
  | raise e ↦ st
  | ok made ↦ made.1
]
step a st (verifying m auth req) = (verify_and_consume a m st auth req).1

abbrev pub run : Authority → State → List Call → State
run a st [] = st
run a st (c ∷ cs) = run a (step a st c) cs

-- The clock does not run backwards from the first time to the last.
abbrev pub IsOrdered : ℕ → List Call → ℕ → Type 0
IsOrdered start [] end = start ≤ end
IsOrdered start (c ∷ cs) end = (start ≤ time c) × IsOrdered (time c) cs end

-- The capability is among the consumed ones or has expired.
abbrev Spent : ExecutionAuthorization → ℕ → State → Type 0
Spent auth now st =
    (Dict.get auth.authorization_id st.consumed ≡ some auth.expires_at) ⊎ (auth.expires_at ≤ now)

get-live :
    (now : ℕ) (k : String) (v : ℕ) (d : Dict String ℕ)
    → Dict.get k d ≡ some v
    → now < v
    → Dict.get k (live now d) ≡ some v
unfolding live Dict.get
get-live now k v [] h late = cc
get-live now k v ((j, w) ∷ d) h late = ground (arith, get-live now k v d)

Spent-later :
    (auth : ExecutionAuthorization) (now later : ℕ) (st : State)
    → now ≤ later
    → Spent auth now st
    → Spent auth later st
Spent-later auth now later st le s = ground arith

Spent-consume :
    (auth other : ExecutionAuthorization) (now : ℕ) (st : State) (plan : QueryPlan)
    → Spent auth now st
    → Spent auth now (consume now st other plan).1
unfolding consume
Spent-consume auth other now st plan (inr late) = inr late
Spent-consume auth other now st plan (inl there) = elim (Bool-cases (ltb now auth.expires_at)) [
  | inr late ↦ inr (ground arith)
  | inl early ↦
      let kept =
        get-live now auth.authorization_id auth.expires_at st.consumed there (ground arith) in
      elim (Bool-cases (Dict.has other.authorization_id (live now st.consumed))) [
        | inl used ↦ inl (rw used kept)
        | inr unused ↦ inl (
            rw unused (
              ground (
                arith,
                kept,
                unused,
                String_eq.beq_iff other.authorization_id auth.authorization_id,
                get-put other.authorization_id auth.authorization_id other.expires_at
                    (live now st.consumed),
              )))
      ]
]

module _ (a : Authority) where
  Spent-step :
      (auth : ExecutionAuthorization) (now : ℕ) (st : State) (c : Call)
      → now ≤ time c
      → Spent auth now st
      → Spent auth (time c) (step a st c)
  unfolding verify_and_consume
  Spent-step auth now st (issuing m req commitment expected) le s =
      elim (Result-cases (issue a m st req commitment expected)) [
        | inl ((made, st'), passed) ↦
            let issued = IsIssued-of a m st req commitment expected made st' passed in
            rw (step, passed, issued.after) (Spent-later auth now m.now st le s)
        | inr (e, failed) ↦ rw (step, failed) (Spent-later auth now m.now st le s)
      ]
  Spent-step auth now st (verifying m other req) le s =
      elim (Result-cases (verify a m st.ledger other req)) [
        | inl (plan, passed) ↦
            rw (step, verify_and_consume, passed)
              (Spent-consume auth other m.now st plan (Spent-later auth now m.now st le s))
        | inr (e, failed) ↦
            rw (step, verify_and_consume, failed) (Spent-later auth now m.now st le s)
      ]

  Spent-run :
      (auth : ExecutionAuthorization) (now end : ℕ) (st : State) (cs : List Call)
      → IsOrdered now cs end
      → Spent auth now st
      → Spent auth end (run a st cs)
  Spent-run auth now end st [] le s = Spent-later auth now end st le s
  Spent-run auth now end st (c ∷ cs) (le, rest) s =
      Spent-run auth (time c) end (step a st c) cs rest (Spent-step auth now st c le s)

  Spent-refused :
      (auth : ExecutionAuthorization) (m : Moment) (st st' : State) (req : Request)
      (plan : QueryPlan)
      → Spent auth m.now st
      → ¬ (verify_and_consume a m st auth req ≡ (ok plan, st'))
  Spent-refused auth m st st' req plan s h =
      let (presented, governed, unused) =
        verify_and_consume-IsGoverned a m st st' auth req plan h in
      elim s [
        | inr late ↦ absurd (ground (arith, presented.unexpired))
        | inl there ↦
            let kept =
              get-live m.now auth.authorization_id auth.expires_at st.consumed there
                presented.unexpired in
            absurd (ground (arith, kept, unused))
      ]

  -- A capability is accepted once: after `verify_and_consume` accepted it, whatever calls of `issue`
  -- and `verify_and_consume` follow, for any request, it is never accepted again, as long as the
  -- clock does not run backwards.
  pub verify_and_consume_once :
      (m : Moment) (st st' : State) (auth : ExecutionAuthorization) (req : Request)
      (plan : QueryPlan)
      → verify_and_consume a m st auth req ≡ (ok plan, st')
      → (cs : List Call) (m' : Moment) → IsOrdered m.now cs m'.now
      → (req' : Request) (plan' : QueryPlan) (st'' : State)
      → ¬ (verify_and_consume a m' (run a st' cs) auth req' ≡ (ok plan', st''))
  verify_and_consume_once m st st' auth req plan h cs m' ordered req' plan' st'' =
      let (passed, consumed) = verify_and_consume-eq-ok a m st st' auth req plan h in
      let (e, unused, after) = consume-eq-ok a m.now st st' auth plan plan consumed in
      let there : Dict.get auth.authorization_id st'.consumed ≡ some auth.expires_at = rw after (
        ground (
          arith,
          ==_self auth.authorization_id,
          get-put auth.authorization_id auth.authorization_id auth.expires_at
              (live m.now st.consumed),
        )) in
      Spent-refused auth m' (run a st' cs) st'' req' plan'
        (Spent-run auth m.now m'.now st' cs ordered (inl there))
