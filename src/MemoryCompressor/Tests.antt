-- ===== src/MemoryCompressor/Tests.antt =====
-- The compressor on integers for doubles.
use bemi_bios.Prelude.{ℕ, ◌+◌, ◌-◌, ◌*◌, ◌/◌, ◌%◌, ◌^◌, ◌≡◌, refl, List, [], ◌∷◌, leb, ltb}
use bemi_bios.Doubles.{Doubles}
use bemi_bios.MemoryCompressor.{olap_scan, compressor_init}
use bemi_bios.MemoryCompressor.Counts.{
  CompressorStep, write_bytes, read_bytes, switch_pattern, over_reads, over_writes, lines_touched,
  compressor_run, compressor_run-Counted,
}

abbrev doubles : Doubles
doubles = record {
  Double = ℕ;
  of_nat = λ n. n * 100;
  hundredths = λ n. n;
  add = λ a b. a + b;
  sub = λ a b. a - b;
  mul = λ a b. a * b / 100;
  div = λ a b. a * 100 / b;
  less = ltb;
  at_most = leb;
  truncate = λ a. a / 100;
}

abbrev steps : List CompressorStep
steps = write_bytes 100 ∷ read_bytes 64 ∷ switch_pattern olap_scan ∷ read_bytes 65 ∷ []

compressor_run-Counted_example :
    let c = compressor_run doubles (compressor_init doubles 150 6400) steps in
    (c.raw_read % 2 ^ 64 ≡ over_reads (λ n. n) steps % 2 ^ 64)
    × (c.raw_written % 2 ^ 64 ≡ over_writes (λ n. n) steps % 2 ^ 64)
    × (c.lines_decompressed % 2 ^ 64 ≡ over_reads lines_touched steps % 2 ^ 64)
    × (c.lines_compressed % 2 ^ 64 ≡ over_writes lines_touched steps % 2 ^ 64)
    × (c.latency_cycles % 2 ^ 64 ≡ c.lines_decompressed % 2 ^ 64)
compressor_run-Counted_example = compressor_run-Counted doubles 150 6400 steps refl
