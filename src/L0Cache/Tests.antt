-- ===== src/L0Cache/Tests.antt =====
-- The micro-caches at concrete addresses.
use bemi_bios.Prelude.{ℕ, ◌+◌, ◌≤◌, ◌<◌, ◌≡◌, refl, true, none, some, Array, [], ◌∷◌, arith}
use bemi_bios.Efi.{success}
use bemi_bios.L0Cache.{
  l0_max_units, MicroCache, L0Caches, zero_cache, init_units, init, read_cache, write_cache,
  ready_cache, read, write,
}
use bemi_bios.L0Cache.Lines.{read_cache-write_cache}
use bemi_bios.L0Cache.Stats.{reads, writes, invalidates, run, Balanced, run-Balanced}
use bemi_bios.L0Cache.Units.{init-ready, read-write_other}

abbrev buffer : Array ℕ
buffer k = k + 7

abbrev nothing : L0Caches
nothing = record { caches = λ _. none; active_units = 0 }

abbrev two_units : L0Caches
two_units = (init (λ _. true) 2 nothing).1

abbrev filled : MicroCache
filled = write_cache zero_cache 0x1234 true buffer 4

read_after_write : (read_cache filled 0x1234 true 4).0 ≡ success
unfolding read_cache write_cache
read_after_write = refl

read_cache-write_cache_example :
    let (status, out, _) = read_cache filled 0x1234 true 4 in
    (status ≡ success)
    × ((bytes : Array ℕ) × (out ≡ some bytes) × ((k : ℕ) → k < 4 → bytes k ≡ buffer k))
read_cache-write_cache_example = read_cache-write_cache zero_cache 0x1234 buffer 4 (omega arith)

run-Balanced_example :
    Balanced
      (run zero_cache (reads 0x40 true 8 ∷ writes 0x44 true buffer 4 ∷ invalidates 0x40 ∷ []))
run-Balanced_example =
    run-Balanced zero_cache (reads 0x40 true 8 ∷ writes 0x44 true buffer 4 ∷ invalidates 0x40 ∷ [])
      refl

init-ready_example :
    (two_units.active_units ≤ l0_max_units)
    × ((u : ℕ) → u < two_units.active_units → ready_cache two_units u ≡ some zero_cache)
    × ((u : ℕ) → two_units.active_units ≤ u → ready_cache two_units u ≡ none)
unfolding init init_units
init-ready_example = init-ready (λ _. true) 2 nothing refl

read-write_other_example :
    let t = (write two_units 0 0x40 true buffer 4).1 in
    let (status, out, _) = read t 1 0x40 true 4 in
    let (old_status, old_out, _) = read two_units 1 0x40 true 4 in
    (status ≡ old_status) × (out ≡ old_out)
read-write_other_example =
    read-write_other two_units 0 1 0x40 4 0x40 4 buffer true true (λ e. omega arith)
