-- ===== src/Limits/AuthFailures/Tests.antt =====
-- The failure limiter at a concrete table.
use toxicjoin.Prelude.{
  ◌≡◌, ◌≤◌, refl, inl, arith, String, String_eq, [], ◌∷◌, ◌++◌, ◌==◌, leb, length, get_last?, some,
  ok, if◌then◌else◌,
}
use toxicjoin.Prelude.Dict
use toxicjoin.Limits.Window.{recent, IsRecord}
use toxicjoin.Limits.AuthFailures.{AuthFailureLimiter, Failures, check, record_failure}
use toxicjoin.Limits.AuthFailures.Budget.{
  times_of, is_refused, check-refuses, check_keeps, record_failure_bound, record_failure_counts,
}

abbrev limiter : AuthFailureLimiter
limiter = record { max_failures = 2; window = 60; max_tracked_keys = 2 }

-- The peer `a` failed three times, once before the window of the time 100.
abbrev table : Failures
table = ("a", 30 ∷ 50 ∷ 90 ∷ []) ∷ ("b", 95 ∷ []) ∷ []

table-IsRecord : IsRecord 100 (times_of "a" table)
unfolding Dict.get
table-IsRecord = ground arith

check-refuses_example :
    is_refused (check limiter 1 100 "a" table).0
    ≡ leb 2 (length (recent 60 100 (times_of "a" table)))
check-refuses_example = check-refuses limiter 1 100 "a" table table-IsRecord (omega arith)

check_keeps_example :
    recent 60 105 (times_of "b" (check limiter 1 100 "a" table).1)
    ≡ recent 60 105 (times_of "b" table)
check_keeps_example = check_keeps limiter 1 100 "a" table table-IsRecord "b" 105 (omega arith)

-- A third peer evicts the one that was quiet for longest.
record_failure_bound_example :
    (after : Failures) × (record_failure limiter 100 "c" table ≡ ok after)
    × (length after ≤ 2)
    × (get_last? (times_of "c" after) ≡ some 100)
record_failure_bound_example =
    record_failure_bound limiter 100 "c" table (omega arith) (omega arith)

record_failure_counts_example :
    (after : Failures) × (record_failure limiter 100 "a" table ≡ ok after)
    × ((q : String)
        → recent 60 100 (times_of q after) ≡ (
            if "a" == q
            then recent 60 100 (times_of q table) ++ recent 60 100 (100 ∷ [])
            else recent 60 100 (times_of q table)))
unfolding Dict.get
record_failure_counts_example =
    record_failure_counts limiter 100 "a" table table-IsRecord (inl refl)
