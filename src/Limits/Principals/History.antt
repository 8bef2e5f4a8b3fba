-- ===== src/Limits/Principals/History.antt =====
-- The limiter of src/toxicjoin/api/limits.py and an ideal one that never forgets an attempt.
use toxicjoin.Prelude.{
  ℕ, ◌+◌, ◌-◌, ◌≤◌, ◌≡◌, refl, ap, sym, subst, ◌∙◌, String, String_eq, true, ◌&&◌, [], ◌∷◌, ◌++◌,
  arith, leb, nat_eq, ◌==◌, length, is_empty, get_or, none, some, Result, ok, raise, Bool-cases,
  Option-cases, inl, inr, if◌then◌else◌,
}
use toxicjoin.Prelude.Dict
use toxicjoin.Prelude.Dict.{Dict, get-put, get-pop}
use toxicjoin.Limits.{
  ApiResourceLimits, TrafficLimitError, limit_error, rate_limit_exceeded,
  concurrency_limit_exceeded, retry_after, prune,
}
use toxicjoin.Limits.Window.{
  IsRecord, recent, IsRecord-later, IsRecord-append, prune-eq-recent, IsRecord-recent,
  recent-recent, recent-append,
}
use toxicjoin.Limits.Principals.{PrincipalState, fresh, States, current, acquire, finish}

-- A history keeps, for each principal, every attempt that was counted and the calls in progress.
abbrev pub History : Type 0
History = String → PrincipalState

abbrev pub update : String → PrincipalState → History → History
update principal state h q = if principal == q then state else h q

-- The rule of the two limits, over the attempts of the last window.
unfoldable pub ideal_acquire :
    ApiResourceLimits → ℕ → ℕ → String → History → Result TrafficLimitError (Unit {0}) × History
ideal_acquire limits second now principal h =
    let seen = recent limits.rate_limit_window now (h principal).timestamps in
    let counted = record (h principal) { timestamps = (h principal).timestamps ++ now ∷ [] } in
    if leb limits.rate_limit_requests (length seen)
    then (
      raise
          (limit_error rate_limit_exceeded (retry_after second limits.rate_limit_window now seen)),
      h,
    )
    else if leb limits.max_concurrent_per_principal (h principal).active
    then (raise (limit_error concurrency_limit_exceeded 1), update principal counted h)
    else (ok tt, update principal (record counted { active = (h principal).active + 1 }) h)

abbrev pub ideal_finish : String → History → History
ideal_finish principal h =
    update principal (record (h principal) { active = (h principal).active - 1 }) h

module _ (limits : ApiResourceLimits) where
  abbrev window : ℕ
  window = limits.rate_limit_window

  -- Two states that no later window tells apart.
  pub record Same (now : ℕ) (a b : PrincipalState) : Type 0 where
    pub active : a.active ≡ b.active
    pub times :
        (later : ℕ)
        → now ≤ later
        → recent limits.rate_limit_window later a.timestamps
          ≡ recent limits.rate_limit_window later b.timestamps
    pub left : IsRecord now a.timestamps
    pub right : IsRecord now b.timestamps

  Same-later : (now later : ℕ) (a b : PrincipalState) → now ≤ later → Same now a b → Same later a b
  Same-later now later a b h s = record {
    active = s.active;
    times = λ l k. s.times l (omega arith);
    left = IsRecord-later now later a.timestamps h s.left;
    right = IsRecord-later now later b.timestamps h s.right;
  }

  Same-prune :
      (now : ℕ) (a b : PrincipalState)
      → Same now a b
      → Same now (record a { timestamps = prune limits.rate_limit_window now a.timestamps }) b
  Same-prune now a b s = rw (prune-eq-recent _ now now a.timestamps s.left) (record {
    active = s.active;
    times = λ later k. recent-recent _ now later a.timestamps k ∙ s.times later k;
    left = IsRecord-recent _ now now a.timestamps s.left;
    right = s.right;
  })

  Same-append :
      (now : ℕ) (a b : PrincipalState)
      → Same now a b
      → Same now
          (record a { timestamps = a.timestamps ++ now ∷ [] })
          (record b { timestamps = b.timestamps ++ now ∷ [] })
  Same-append now a b s = record {
    active = s.active;
    times = λ later k.
        rw (recent-append _ later a.timestamps (now ∷ []))
          (rw (recent-append _ later b.timestamps (now ∷ [])) (rw (s.times later k)));
    left = IsRecord-append now a.timestamps s.left;
    right = IsRecord-append now b.timestamps s.right;
  }

  Same-active :
      (now n m : ℕ) (a b : PrincipalState)
      → n ≡ m
      → Same now a b
      → Same now (record a { active = n }) (record b { active = m })
  Same-active now n m a b e s = record {
    active = e;
    times = s.times;
    left = s.left;
    right = s.right;
  }

  -- What the table holds for a principal.
  abbrev state_of : States → String → PrincipalState
  state_of states principal = get_or fresh (Dict.get principal states)

  -- The table stands for the history: at no later time can a difference be seen.
  pub record Tracks (now : ℕ) (states : States) (h : History) : Type 0 where
    pub at_principal : (q : String) → Same now (state_of states q) (h q)

  Tracks-put :
      (now : ℕ) (principal : String) (a b : PrincipalState) (states : States) (h : History)
      → Same now a b
      → ((q : String) → Same now (state_of states q) (h q))
      → Tracks now (Dict.put principal a states) (update principal b h)
  Tracks-put now principal a b states h s others = record {
    at_principal = λ q. rw get-put (put_case q);
  }
    where
      put_case :
          (q : String)
          → Same now
              (get_or fresh (if principal == q then some a else Dict.get q states))
              (if principal == q then b else h q)
      put_case q = elim (Bool-cases (principal == q)) [ inl e ↦ rw e s | inr e ↦ rw e (others q) ]

  Tracks-keep :
      (now : ℕ) (principal : String) (a : PrincipalState) (states : States) (h : History)
      → Same now a (h principal)
      → ((q : String) → Same now (state_of states q) (h q))
      → Tracks now (Dict.put principal a states) h
  Tracks-keep now principal a states h s others = record {
    at_principal = λ q. rw get-put (keep_case q);
  }
    where
      keep_case :
          (q : String)
          → Same now (get_or fresh (if principal == q then some a else Dict.get q states)) (h q)
      keep_case q = elim (Bool-cases (principal == q)) [
        | inl e ↦ rw e (subst (λ r. Same now a (h r)) ((String_eq.beq_iff principal q).0 e) s)
        | inr e ↦ rw e (others q)
      ]

  Tracks-pop :
      (now : ℕ) (principal : String) (b : PrincipalState) (states : States) (h : History)
      → Same now fresh b
      → ((q : String) → Same now (state_of states q) (h q))
      → Tracks now (Dict.pop principal states) (update principal b h)
  Tracks-pop now principal b states h s others = record {
    at_principal = λ q. rw get-pop (pop_case q);
  }
    where
      pop_case :
          (q : String)
          → Same now
              (get_or fresh (if principal == q then none else Dict.get q states))
              (if principal == q then b else h q)
      pop_case q = elim (Bool-cases (principal == q)) [ inl e ↦ rw e s | inr e ↦ rw e (others q) ]

  Tracks-Same :
      (now : ℕ) (principal : String) (b : PrincipalState) (states : States) (h : History)
      → Same now fresh b
      → Dict.get principal states ≡ none
      → ((q : String) → Same now (state_of states q) (h q))
      → Tracks now states (update principal b h)
  Tracks-Same now principal b states h s unknown others = record {
    at_principal = λ q. elim (Bool-cases (principal == q)) [
      | inl e ↦ rw (e, sym ((String_eq.beq_iff principal q).0 e), unknown) s
      | inr e ↦ rw e (others q)
    ];
  }

  is_fresh : (a : PrincipalState) → (nat_eq a.active 0 && is_empty a.timestamps) ≡ true → a ≡ fresh
  is_fresh a h = ground arith

  Same-idle :
      (now : ℕ) (a b : PrincipalState)
      → (nat_eq a.active 0 && is_empty a.timestamps) ≡ true
      → Same now a b
      → Same now fresh b
  Same-idle now a b idle s = subst (λ r. Same now r b) (is_fresh a idle) s

  module _ (before now : ℕ) (principal : String) (states : States) (h : History)
      (order : before ≤ now) (tracks : Tracks before states h) where
    others_now : (q : String) → Same now (state_of states q) (h q)
    others_now q = Same-later before now _ _ order (tracks.at_principal q)

    current_now : Same now (current limits now principal states) (h principal)
    unfolding current
    current_now = Same-prune now _ _ (others_now principal)

    seen_now :
        recent limits.rate_limit_window now (h principal).timestamps
        ≡ (current limits now principal states).timestamps
    unfolding current
    seen_now =
        sym ((others_now principal).times now (omega arith))
        ∙ sym (prune-eq-recent _ now now _ (others_now principal).left)

    -- One `acquire` gives the answer of the ideal limiter, and the table goes on standing for the
    -- history.
    pub acquire-Tracks :
        (second : ℕ)
        → ((acquire limits second now principal states).0
            ≡ (ideal_acquire limits second now principal h).0)
          × Tracks now
              (acquire limits second now principal states).1
              (ideal_acquire limits second now principal h).1
    unfolding acquire ideal_acquire
    acquire-Tracks second =
        rw seen_now
          (elim (Bool-cases (
            leb limits.rate_limit_requests
              (length (current limits now principal states).timestamps))) [
                | inl full ↦
                    rw full (refl, Tracks-keep now principal _ states h current_now others_now)
                | inr room ↦ rw room (
                    rw (sym current_now.active)
                      (elim (Bool-cases (
                        leb limits.max_concurrent_per_principal
                          (current limits now principal states).active)) [
                            | inl busy ↦
                                rw busy
                                  (refl, Tracks-put now principal _ _ states h counted others_now)
                            | inr free ↦ rw free (
                              refl,
                              Tracks-put now principal _ _ states h
                                  (Same-active now _ _ _ _ refl counted) others_now,
                            )
                          ]))
              ])
      where
        counted :
            Same now
              (record (current limits now principal states) {
                timestamps = (current limits now principal states).timestamps ++ now ∷ [];
              })
              (record {
                timestamps = (h principal).timestamps ++ now ∷ [];
                active = (current limits now principal states).active;
              })
        counted =
            Same-active now _ _ _ _ refl
              (Same-append now (current limits now principal states) (h principal) current_now)

    finish_some :
        (state : PrincipalState)
        → Same now state (h principal)
        → Tracks now
            (let active = state.active - 1 in
              let timestamps = prune limits.rate_limit_window now state.timestamps in
              if nat_eq active 0 && is_empty timestamps
              then Dict.pop principal states
              else Dict.put principal (record { timestamps = timestamps; active = active }) states)
            (ideal_finish principal h)
    finish_some state s =
        elim (Bool-cases (
          nat_eq (state.active - 1) 0
          && is_empty (prune limits.rate_limit_window now state.timestamps))) [
            | inl idle ↦
                rw idle
                  (Tracks-pop now principal _ states h (Same-idle now _ _ idle finished) others_now)
            | inr busy ↦ rw busy (Tracks-put now principal _ _ states h finished others_now)
          ]
      where
        finished :
            Same now
              (record {
                timestamps = prune limits.rate_limit_window now state.timestamps;
                active = state.active - 1;
              })
              (record (h principal) { active = (h principal).active - 1 })
        finished =
            Same-active now _ _ _ _ (ap (λ n. n - 1) s.active)
              (Same-prune now state (h principal) s)

    -- The end of a call keeps the table standing for the history, also where it drops the entry.
    pub finish-Tracks : Tracks now (finish limits now principal states) (ideal_finish principal h)
    unfolding finish
    finish-Tracks = elim (Option-cases (Dict.get principal states)) [
      | inl unknown ↦
          let same : Same now fresh (h principal) = rw unknown at (others_now principal) in
          rw (unknown, finish)
            (Tracks-Same now principal _ states h
              (Same-active now 0 _ _ _ (ap (λ n. n - 1) same.active) same) unknown others_now)
      | inr (state, known) ↦
          rw (known, finish) (finish_some state (rw known at (others_now principal)))
    ]
