-- ===== src/Prelude/Checks.antt =====
-- A row of guards: each raises its own error, and the first that fails decides.
use mathlib.Core.Path.{◌≡◌, refl}
use mathlib.Core.Bool.{Bool, true, false}
use mathlib.Core.List.{List, [], ◌∷◌}
use toxicjoin.Prelude.Tests.{if◌then◌else◌}
use toxicjoin.Prelude.Outcome.{Result, ok, raise}

module _ {ℓ} {E : Type ℓ} where
  -- if not test: raise error, for each in turn
  abbrev pub require_all : List (Bool × E) → Result E (Unit {0})
  require_all [] = ok tt
  require_all ((test, error) ∷ rest) = if test then require_all rest else raise error

  -- Every test holds.
  abbrev pub Passed : List (Bool × E) → Type 0
  Passed [] = Unit
  Passed ((test, error) ∷ rest) = (test ≡ true) × Passed rest

  pub require_all-eq-ok :
      (checks : List (Bool × E)) {u : Unit {0}} → require_all checks ≡ ok u → Passed checks
  require_all-eq-ok [] h = tt
  require_all-eq-ok ((true, error) ∷ rest) h = (refl, require_all-eq-ok rest h)
  require_all-eq-ok ((false, error) ∷ rest) h = cc
