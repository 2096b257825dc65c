-- ===== src/MemoryCompressor.antt =====
-- The memory compressor of performance/bwgov/memorycompressor.c, over a type of doubles. The state is
-- the block that MemoryCompressorInit allocates; without it the operations do nothing.
pub mod Counts
mod Tests
use bemi_bios.Prelude.{
  ℕ, zero, suc, ◌+◌, ◌*◌, ◌/◌, ◌%◌, ◌^◌, Bool, true, false, Option, none, some, if◌then◌else◌,
  add64,
}
use bemi_bios.Efi.{EfiStatus, success, not_ready}
use bemi_bios.Doubles.{Doubles}

abbrev pub cache_line_size : ℕ
cache_line_size = 64

-- HMC_WORKLOAD_PATTERN
pub data WorkloadPattern : Type 0 where
  generic : WorkloadPattern
  video_encoding : WorkloadPattern
  olap_scan : WorkloadPattern
  dl_training : WorkloadPattern

-- MEMORY_COMPRESSOR
pub record Compressor (D : Type 0) : Type 0 where
  pub target_ratio : D
  pub peak_physical : D
  pub peak_effective : D
  pub raw_read : ℕ
  pub raw_written : ℕ
  pub compressed_read : ℕ
  pub compressed_written : ℕ
  pub lines_compressed : ℕ
  pub lines_decompressed : ℕ
  pub latency_cycles : ℕ

-- (Size + HMC_CACHE_LINE_SIZE - 1) / HMC_CACHE_LINE_SIZE
abbrev pub lines_of : ℕ → ℕ
lines_of size = add64 size 63 / cache_line_size

module _ (d : Doubles) where
  -- MemoryCompressorInit, when the pool is allocated.
  unfoldable pub compressor_init : d.Double → d.Double → Compressor d.Double
  compressor_init ratio physical =
      let target = if d.less ratio (d.hundredths 100) then d.hundredths 100 else ratio in
      record {
        target_ratio = target;
        peak_physical = physical;
        peak_effective = d.mul physical target;
        raw_read = 0;
        raw_written = 0;
        compressed_read = 0;
        compressed_written = 0;
        lines_compressed = 0;
        lines_decompressed = 0;
        latency_cycles = 0;
      }

  -- (UINT64)((double)Size / TargetCompressionRatio)
  abbrev pub compressed_size : Compressor d.Double → ℕ → ℕ
  compressed_size c size = d.truncate (d.div (d.of_nat size) c.target_ratio)

  -- MemoryCompressorWrite
  unfoldable pub compressor_write : Compressor d.Double → ℕ → Compressor d.Double
  compressor_write c size = record c {
    raw_written = add64 c.raw_written size;
    compressed_written = add64 c.compressed_written (compressed_size c size);
    lines_compressed = add64 c.lines_compressed (lines_of size);
  }

  -- MemoryCompressorRead
  unfoldable pub compressor_read : Compressor d.Double → ℕ → Compressor d.Double
  compressor_read c size = record c {
    raw_read = add64 c.raw_read size;
    compressed_read = add64 c.compressed_read (compressed_size c size);
    lines_decompressed = add64 c.lines_decompressed (lines_of size);
    latency_cycles = add64 c.latency_cycles (lines_of size * 1);
  }

  -- MemoryCompressorGetBandwidth for pointers that are not NULL: physical and effective.
  unfoldable pub get_bandwidth : Option (Compressor d.Double) → d.Double × d.Double
  get_bandwidth none = (d.of_nat 64, d.of_nat 64)
  get_bandwidth (some c) =
      let raw = d.of_nat (add64 c.raw_read c.raw_written) in
      let compressed = d.of_nat (add64 c.compressed_read c.compressed_written) in
      let ratio = if d.less (d.of_nat 0) compressed then d.div raw compressed else c.target_ratio in
      (c.peak_physical, d.mul c.peak_physical ratio)

  abbrev pub pattern_ratio : WorkloadPattern → d.Double
  pattern_ratio video_encoding = d.hundredths 180
  pattern_ratio olap_scan = d.hundredths 200
  pattern_ratio dl_training = d.hundredths 220
  pattern_ratio generic = d.hundredths 150

  -- MemoryCompressorSetWorkloadPattern
  unfoldable pub set_pattern : Compressor d.Double → WorkloadPattern → Compressor d.Double
  set_pattern c pattern = record c {
    target_ratio = pattern_ratio pattern;
    peak_effective = d.mul c.peak_physical (pattern_ratio pattern);
  }

  -- MemoryCompressorV72Init
  unfoldable pub v72_init_compressor : Compressor d.Double → Compressor d.Double
  v72_init_compressor c = record c {
    target_ratio = d.hundredths 300;
    peak_effective = d.of_nat 192;
  }
