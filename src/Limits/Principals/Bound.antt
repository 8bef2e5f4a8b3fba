-- ===== src/Limits/Principals/Bound.antt =====
-- Whole runs of the limiter of src/toxicjoin/api/limits.py, and of the ideal one.
use toxicjoin.Prelude.{
  ℕ, suc, ◌+◌, ◌≤◌, ◌≡◌, refl, ap, String, String_eq, ◌&&◌, List, [], ◌∷◌, ◌++◌, arith, leb, ltb,
  ◌==◌, filter, filter-append, length, length-append, Result, Bool-cases, inl, inr, if◌then◌else◌,
}
use toxicjoin.Prelude.Dict
use toxicjoin.Limits.{ApiResourceLimits, TrafficLimitError}
use toxicjoin.Limits.Window.{recent}
use toxicjoin.Limits.Principals.{PrincipalState, fresh, States, acquire, finish}
use toxicjoin.Limits.Principals.History.{
  History, update, ideal_acquire, ideal_finish, Tracks, acquire-Tracks, finish-Tracks,
}

-- A call that a principal attempts, or the end of one that was admitted.
pub data Event : Type 0 where
  attempt : ℕ → String → Event
  ended : ℕ → String → Event

abbrev pub time_of : Event → ℕ
time_of (attempt now principal) = now
time_of (ended now principal) = now

-- The clock is monotonic.
abbrev pub IsOrdered : ℕ → List Event → Type 0
IsOrdered before [] = Unit
IsOrdered before (e ∷ es) = (before ≤ time_of e) × IsOrdered (time_of e) es

abbrev pub Answer : Type 0
Answer = Result TrafficLimitError (Unit {0})

abbrev pub nothing_yet : History
nothing_yet principal = fresh

module _ (limits : ApiResourceLimits) (second : ℕ) where
  -- The answers of the limiter to a run of events.
  pub answers : States → List Event → List Answer
  answers states [] = []
  answers states (attempt now principal ∷ es) =
      let (answer, states') = acquire limits second now principal states in
      answer ∷ answers states' es
  answers states (ended now principal ∷ es) = answers (finish limits now principal states) es

  pub ideal_answers : History → List Event → List Answer
  ideal_answers h [] = []
  ideal_answers h (attempt now principal ∷ es) =
      let (answer, h') = ideal_acquire limits second now principal h in answer ∷ ideal_answers h' es
  ideal_answers h (ended now principal ∷ es) = ideal_answers (ideal_finish principal h) es

  answers-eq-ideal_from :
      (before : ℕ) (states : States) (h : History) (events : List Event)
      → IsOrdered before events
      → Tracks limits before states h
      → answers states events ≡ ideal_answers h events
  unfolding answers ideal_answers
  answers-eq-ideal_from before states h [] o t = refl
  answers-eq-ideal_from before states h (attempt now principal ∷ es) o t =
      let (same, next) = acquire-Tracks limits before now principal states h o.0 t second in
      rw same (
        ap (◌∷◌ (ideal_acquire limits second now principal h).0)
          (answers-eq-ideal_from now _ _ es o.1 next))
  answers-eq-ideal_from before states h (ended now principal ∷ es) o t =
      answers-eq-ideal_from now _ _ es o.1
        (finish-Tracks limits before now principal states h o.0 t)

  pub answers-eq-ideal :
      (events : List Event)
      → IsOrdered 0 events
      → answers [] events ≡ ideal_answers nothing_yet events
  unfolding Dict.get
  answers-eq-ideal events o = answers-eq-ideal_from 0 [] nothing_yet events o start
    where
      start : Tracks limits 0 [] nothing_yet
      start = record {
        at_principal = λ q. record { active = refl; times = λ l k. refl; left = tt; right = tt };
      }

  -- The history after a run.
  pub ideal_run : History → List Event → History
  ideal_run h [] = h
  ideal_run h (attempt now principal ∷ es) =
      ideal_run (ideal_acquire limits second now principal h).1 es
  ideal_run h (ended now principal ∷ es) = ideal_run (ideal_finish principal h) es

-- How many of the times lie in the window that ends at `at`.
pub in_window : ℕ → ℕ → List ℕ → ℕ
in_window window at ts = length (filter (λ t. ltb at (t + window) && leb t at) ts)

in_window-append :
    (window at t : ℕ) (ts : List ℕ)
    → in_window window at (ts ++ t ∷ [])
      ≡ in_window window at ts + (if ltb at (t + window) && leb t at then 1 else 0)
unfolding in_window
in_window-append window at t ts = simp (filter-append, length-append) (ground arith)

in_window-le-recent :
    (window now at : ℕ) (ts : List ℕ)
    → now ≤ at
    → in_window window at ts ≤ length (recent window now ts)
unfolding in_window recent
in_window-le-recent window now at [] h = omega arith
in_window-le-recent window now at (t ∷ ts) h =
    ground (arith, in_window-le-recent window now at ts h)

-- No window holds more counted attempts of a principal than the limit, and no principal has more calls
-- in progress than its budget.
pub record IsBounded (limits : ApiResourceLimits) (h : History) : Type 0 where
  pub rate :
      (q : String) (at : ℕ)
      → in_window limits.rate_limit_window at (h q).timestamps ≤ limits.rate_limit_requests
  pub active : (q : String) → (h q).active ≤ limits.max_concurrent_per_principal

module _ (limits : ApiResourceLimits) where
  window_room :
      (now at : ℕ) (ts : List ℕ)
      → suc (length (recent limits.rate_limit_window now ts)) ≤ limits.rate_limit_requests
      → in_window limits.rate_limit_window at ts ≤ limits.rate_limit_requests
      → in_window limits.rate_limit_window at (ts ++ now ∷ []) ≤ limits.rate_limit_requests
  window_room now at ts room old =
      rw in_window-append (ground (arith, in_window-le-recent limits.rate_limit_window now at ts))

  update-IsBounded :
      (principal : String) (s : PrincipalState) (h : History)
      → IsBounded limits h
      → ((at : ℕ) → in_window limits.rate_limit_window at s.timestamps ≤ limits.rate_limit_requests)
      → s.active ≤ limits.max_concurrent_per_principal
      → IsBounded limits (update principal s h)
  update-IsBounded principal s h b times active = record {
    rate = λ q at. elim (Bool-cases (principal == q)) [
      | inl e ↦ rw e (times at)
      | inr e ↦ rw e (b.rate q at)
    ];
    active =
        λ q. elim (Bool-cases (principal == q)) [ inl e ↦ rw e active | inr e ↦ rw e (b.active q) ];
  }

  acquire-IsBounded :
      (second now : ℕ) (principal : String) (h : History)
      → IsBounded limits h
      → IsBounded limits (ideal_acquire limits second now principal h).1
  unfolding ideal_acquire
  acquire-IsBounded second now principal h b =
      elim (Bool-cases (
        leb limits.rate_limit_requests
          (length (recent limits.rate_limit_window now (h principal).timestamps)))) [
            | inl full ↦ rw full b
            | inr room ↦
                rw room
                  (elim (Bool-cases
                    (leb limits.max_concurrent_per_principal (h principal).active)) [
                      | inl busy ↦ rw busy (
                          update-IsBounded principal _ h b
                            (λ at. window_room now at _ (ground arith) (b.rate principal at))
                            (b.active principal))
                      | inr free ↦ rw free (
                          update-IsBounded principal _ h b
                            (λ at. window_room now at _ (ground arith) (b.rate principal at))
                            (ground arith))
                    ])
          ]

  finish-IsBounded :
      (principal : String) (h : History)
      → IsBounded limits h
      → IsBounded limits (ideal_finish principal h)
  finish-IsBounded principal h b =
      update-IsBounded principal _ h b (b.rate principal) (omega (arith, b.active principal))

  run-IsBounded_from :
      (second : ℕ) (h : History) (events : List Event)
      → IsBounded limits h
      → IsBounded limits (ideal_run limits second h events)
  unfolding ideal_run
  run-IsBounded_from second h [] b = b
  run-IsBounded_from second h (attempt now principal ∷ es) b =
      run-IsBounded_from second (ideal_acquire limits second now principal h).1 es
        (acquire-IsBounded second now principal h b)
  run-IsBounded_from second h (ended now principal ∷ es) b =
      run-IsBounded_from second (ideal_finish principal h) es (finish-IsBounded principal h b)

  pub run-IsBounded :
      (second : ℕ) (events : List Event)
      → IsBounded limits (ideal_run limits second nothing_yet events)
  unfolding in_window
  run-IsBounded second events =
      run-IsBounded_from second _ events
        (record { rate = λ q at. omega arith; active = λ q. omega arith })

  -- Over any run of calls on a clock that does not go back, the limiter, which forgets, answers like one
  -- that keeps every attempt; and in that one no window ever holds more counted attempts of a principal
  -- than the rate limit, and no principal has more calls in progress than its budget.
  pub answers-IsBounded :
      (second : ℕ) (events : List Event)
      → IsOrdered 0 events
      → (answers limits second [] events ≡ ideal_answers limits second nothing_yet events)
        × IsBounded limits (ideal_run limits second nothing_yet events)
  answers-IsBounded second events o =
      (answers-eq-ideal limits second events o, run-IsBounded second events)
