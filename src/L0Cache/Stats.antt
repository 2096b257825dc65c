-- ===== src/L0Cache/Stats.antt =====
-- The counters of a micro-cache.
use bemi_bios.Prelude.{ℕ, ◌+◌, ◌%◌, ◌^◌, ◌≡◌, Bool, Array, arith, List, [], ◌∷◌}
use bemi_bios.L0Cache.{MicroCache, read_cache, write_cache, invalidate_line}

pub data Access : Type 0 where
  reads : ℕ → Bool → ℕ → Access
  writes : ℕ → Bool → Array ℕ → ℕ → Access
  invalidates : ℕ → Access

pub step : MicroCache → Access → MicroCache
unfolding read_cache write_cache invalidate_line
step c (reads addr has_data size) = (read_cache c addr has_data size).2
step c (writes addr has_data buffer size) = write_cache c addr has_data buffer size
step c (invalidates addr) = invalidate_line c addr

pub run : MicroCache → List Access → MicroCache
run c [] = c
run c (a ∷ rest) = run (step c a) rest

-- Every access is counted once, as a hit, a miss or a write, as far as 64 bits go.
abbrev pub Balanced : MicroCache → Type 0
Balanced c = (c.hits + c.misses + c.write_through) % 2 ^ 64 ≡ c.total_accesses % 2 ^ 64

step-Balanced : (c : MicroCache) (a : Access) → Balanced c → Balanced (step c a)
unfolding step
step-Balanced c (reads addr has_data size) h = ground arith
step-Balanced c (writes addr has_data buffer size) h = ground arith
step-Balanced c (invalidates addr) h = ground arith

-- Over any sequence of accesses, hits, misses and writes add up to the accesses modulo 2 ^ 64.
pub run-Balanced :
    (c : MicroCache) (accesses : List Access) → Balanced c → Balanced (run c accesses)
unfolding run
run-Balanced c [] h = h
run-Balanced c (a ∷ rest) h = run-Balanced (step c a) rest (step-Balanced c a h)
