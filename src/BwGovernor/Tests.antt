-- ===== src/BwGovernor/Tests.antt =====
-- The governor on integers for doubles: every window is busy.
use bemi_bios.Prelude.{ℕ, ◌+◌, ◌-◌, ◌*◌, ◌/◌, ◌≡◌, List, [], ◌∷◌, some, ltb, leb}
use bemi_bios.Doubles.{Doubles}
use bemi_bios.BwGovernor.{Governor, governor_init, get_active_threads, get_effective_threads}
use bemi_bios.BwGovernor.Levels.{
  IsConsistent, GovernorStep, transactions_of, prefetches_of, window, governor_run,
  governor_run-IsConsistent,
}

-- Hundredths as integers.
abbrev doubles : Doubles
doubles = record {
  Double = ℕ;
  of_nat = λ n. n * 100;
  hundredths = λ n. n;
  add = λ a b. a + b;
  sub = λ a b. a - b;
  mul = λ a b. a * b / 100;
  div = λ a b. a * 100 / b;
  less = ltb;
  at_most = leb;
  truncate = λ a. a / 100;
}

abbrev steps : List GovernorStep
steps =
    transactions_of 400 ∷ window ∷ prefetches_of 3 2 ∷ transactions_of 390 ∷ window ∷ window ∷ []

governor_run-IsConsistent_example :
    let g = governor_run doubles (governor_init doubles 84 6400) steps in
    IsConsistent doubles g
    × (get_effective_threads doubles (some g) ≡ get_active_threads doubles (some g))
governor_run-IsConsistent_example = governor_run-IsConsistent doubles 84 6400 steps

abbrev fresh_governor : Governor ℕ
fresh_governor = governor_init doubles 84 6400
