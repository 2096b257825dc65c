-- ===== src/BankSearch.antt =====
-- The do-while loop by which both allocators of performance/rob/robdistributor.c look for one of
-- their seven banks: from a starting bank on, in cyclic order, until a test passes.
pub mod Cyclic
use bemi_bios.Prelude.{ℕ, zero, suc, ◌+◌, ◌%◌, Bool, ◌==◌, if◌then◌else◌}

-- ROB_BANKS and V72_ROB_EXT_BANKS
abbrev pub rob_banks : ℕ
rob_banks = 7

-- How the search ends. `unfinished` means that its fuel ran out.
pub data BankSearch : Type 0 where
  found : ℕ → BankSearch
  all_full : BankSearch
  unfinished : BankSearch

-- The loop at bank `b`. The pointer that it ends with is NULL in the case `all_full`.
unfoldable pub find_bank : (ℕ → Bool) → ℕ → ℕ → ℕ → BankSearch
find_bank room zero start b = unfinished
find_bank room (suc fuel) start b =
    let next = (b + 1) % rob_banks in
    let rest = find_bank room fuel start next in
    if room b then found b else (if next == start then all_full else rest)
