-- ===== src/ApicShadow/LeadingZeros.antt =====
-- A function for the tests to put in the place of AsmMsb32.
use bemi_bios.Prelude.{ℕ, zero, suc, ◌-◌, ◌^◌, leb, if◌then◌else◌}

-- The highest set bit of x below bit n + 1.
pub top_bit : ℕ → ℕ → ℕ
top_bit x zero = 0
top_bit x (suc k) = let rest = top_bit x k in if leb (2 ^ suc k) x then suc k else rest

abbrev pub leading_zeros : ℕ → ℕ
leading_zeros x = 31 - top_bit x 31
