-- ===== src/Doubles.antt =====
-- The doubles of the governor and the memory compressor under performance/bwgov, as a type with the
-- operations that the code uses.
use bemi_bios.Prelude.{ℕ, Bool}

-- The operations on doubles: the cast of an integer, n/100, the arithmetic, `<`, `<=`, and the cast to
-- an unsigned integer.
pub record Doubles : Type 1 where
  pub Double : Type 0
  pub of_nat : ℕ → Double
  pub hundredths : ℕ → Double
  pub add : Double → Double → Double
  pub sub : Double → Double → Double
  pub mul : Double → Double → Double
  pub div : Double → Double → Double
  pub less : Double → Double → Bool
  pub at_most : Double → Double → Bool
  pub truncate : Double → ℕ
