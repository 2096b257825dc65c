-- ===== src/MemoryCompressor/Counts.antt =====
-- What the memory compressor counts.
use bemi_bios.Prelude.{
  ◌/◌, ◌==◌, ltb, Bool, true, ◌&&◌, if◌then◌else◌, Bool-cases, inl, inr, ℕ, ◌+◌, ◌%◌, ◌^◌, ◌≡◌,
  List, [], ◌∷◌, arith,
}
use bemi_bios.Doubles.{Doubles}
use bemi_bios.MemoryCompressor.{
  WorkloadPattern, Compressor, lines_of, compressor_init, compressor_write, compressor_read,
  set_pattern, v72_init_compressor,
}

-- The operations of the compressor.
pub data CompressorStep : Type 0 where
  write_bytes : ℕ → CompressorStep
  read_bytes : ℕ → CompressorStep
  switch_pattern : WorkloadPattern → CompressorStep
  switch_v72 : CompressorStep

unfoldable pub compressor_step :
    (d : Doubles) → Compressor d.Double → CompressorStep → Compressor d.Double
compressor_step d c (write_bytes n) = compressor_write d c n
compressor_step d c (read_bytes n) = compressor_read d c n
compressor_step d c (switch_pattern pattern) = set_pattern d c pattern
compressor_step d c switch_v72 = v72_init_compressor d c

unfoldable pub compressor_run :
    (d : Doubles) → Compressor d.Double → List CompressorStep → Compressor d.Double
compressor_run d c [] = c
compressor_run d c (s ∷ ss) = compressor_run d (compressor_step d c s) ss

-- A sum over the reads, and one over the writes, of the steps.
abbrev pub over_reads : (ℕ → ℕ) → List CompressorStep → ℕ
over_reads f [] = 0
over_reads f (read_bytes n ∷ ss) = f n + over_reads f ss
over_reads f (write_bytes n ∷ ss) = over_reads f ss
over_reads f (switch_pattern pattern ∷ ss) = over_reads f ss
over_reads f (switch_v72 ∷ ss) = over_reads f ss

abbrev pub over_writes : (ℕ → ℕ) → List CompressorStep → ℕ
over_writes f [] = 0
over_writes f (write_bytes n ∷ ss) = f n + over_writes f ss
over_writes f (read_bytes n ∷ ss) = over_writes f ss
over_writes f (switch_pattern pattern ∷ ss) = over_writes f ss
over_writes f (switch_v72 ∷ ss) = over_writes f ss

-- The lines of 64 bytes that some bytes touch: the whole ones, and one for what is left.
abbrev pub lines_touched : ℕ → ℕ
lines_touched size = if size % 64 == 0 then size / 64 else size / 64 + 1

-- Every transfer of the steps is smaller than 2^64 - 63 bytes.
abbrev pub all_small : List CompressorStep → Bool
all_small [] = true
all_small (write_bytes n ∷ ss) = ltb n 0xFFFFFFFFFFFFFFC1 && all_small ss
all_small (read_bytes n ∷ ss) = ltb n 0xFFFFFFFFFFFFFFC1 && all_small ss
all_small (switch_pattern pattern ∷ ss) = all_small ss
all_small (switch_v72 ∷ ss) = all_small ss

lines_of-touched : (n : ℕ) → ltb n 0xFFFFFFFFFFFFFFC1 ≡ true → lines_of n ≡ lines_touched n
lines_of-touched n h = elim (Bool-cases (n % 64 == 0)) [
  | inl e ↦ ground arith
  | inr e ↦ ground arith
]

-- The counters after some steps, from what they were before.
abbrev pub Counted :
    (d : Doubles) → Compressor d.Double → List CompressorStep → Compressor d.Double → Type 0
Counted d c ss c' =
    (c'.raw_read % 2 ^ 64 ≡ (c.raw_read + over_reads (λ n. n) ss) % 2 ^ 64)
    × (c'.raw_written % 2 ^ 64 ≡ (c.raw_written + over_writes (λ n. n) ss) % 2 ^ 64)
    × (c'.lines_decompressed % 2 ^ 64
        ≡ (c.lines_decompressed + over_reads lines_touched ss) % 2 ^ 64)
    × (c'.lines_compressed % 2 ^ 64 ≡ (c.lines_compressed + over_writes lines_touched ss) % 2 ^ 64)
    × (c'.latency_cycles % 2 ^ 64 ≡ (c.latency_cycles + over_reads lines_touched ss) % 2 ^ 64)

run-Counted :
    (d : Doubles) (ss : List CompressorStep) (c : Compressor d.Double)
    → all_small ss ≡ true
    → Counted d c ss (compressor_run d c ss)
unfolding compressor_run compressor_step compressor_write compressor_read set_pattern
    v72_init_compressor
run-Counted d [] c small = (omega arith, omega arith, omega arith, omega arith, omega arith)
run-Counted d (write_bytes n ∷ ss) c small =
    let (a, b, e, f, g) = run-Counted d ss (compressor_write d c n) (ground arith) in
    (a, omega (arith, b), e, omega (arith, f, lines_of-touched n (ground arith)), g)
run-Counted d (read_bytes n ∷ ss) c small =
    let (a, b, e, f, g) = run-Counted d ss (compressor_read d c n) (ground arith) in
    let lines = lines_of-touched n (ground arith) in
    (omega (arith, a), b, omega (arith, e, lines), f, omega (arith, g, lines))
run-Counted d (switch_pattern pattern ∷ ss) c small =
    run-Counted d ss (set_pattern d c pattern) small
run-Counted d (switch_v72 ∷ ss) c small = run-Counted d ss (v72_init_compressor d c) small

-- After MemoryCompressorInit and any reads, writes and changes of the ratio, with transfers of less than
-- 2^64 - 63 bytes, the counters of raw bytes, read and written, are the sums over the reads and the
-- writes, those of cache lines are the sums of the lines of 64 bytes that each touches, the last one
-- counted in full, and the latency is one cycle for each line that is read, all modulo 2^64 and
-- whatever the arithmetic of doubles is.
pub compressor_run-Counted :
    (d : Doubles) (ratio physical : d.Double) (ss : List CompressorStep)
    → all_small ss ≡ true
    → let c = compressor_run d (compressor_init d ratio physical) ss in
      (c.raw_read % 2 ^ 64 ≡ over_reads (λ n. n) ss % 2 ^ 64)
      × (c.raw_written % 2 ^ 64 ≡ over_writes (λ n. n) ss % 2 ^ 64)
      × (c.lines_decompressed % 2 ^ 64 ≡ over_reads lines_touched ss % 2 ^ 64)
      × (c.lines_compressed % 2 ^ 64 ≡ over_writes lines_touched ss % 2 ^ 64)
      × (c.latency_cycles % 2 ^ 64 ≡ c.lines_decompressed % 2 ^ 64)
unfolding compressor_init
compressor_run-Counted d ratio physical ss small =
    let (a, b, e, f, g) = run-Counted d ss (compressor_init d ratio physical) small in
    (omega (arith, a), omega (arith, b), omega (arith, e), omega (arith, f), omega (arith, e, g))
