-- ===== src/L0Cache/Lines.antt =====
-- Reads and writes of one micro-cache: what a read returns after a write and after a miss.
use bemi_bios.Prelude.{
  ℕ, ◌+◌, ◌-◌, ◌/◌, ◌≤◌, ◌<◌, ◌≡◌, ◌≢◌, ◌⊎◌, refl, Bool, true, some, leb, Array, arith,
}
use bemi_bios.Efi.{success, warn_not_found}
use bemi_bios.L0Cache.{
  l0_line_size, CacheLine, MicroCache, cache_index, cache_tag, cache_offset, fresh_line, line_hits,
  copy_out, read_cache, write_cache, invalidate_line,
}

-- Two addresses lie in one line exactly if they have the same index and tag: a hit is never an alias.
pub same_line_iff :
    (a b : ℕ)
    → ((cache_index a ≡ cache_index b) × (cache_tag a ≡ cache_tag b)
        → a / l0_line_size ≡ b / l0_line_size)
      × (a / l0_line_size ≡ b / l0_line_size
          → (cache_index a ≡ cache_index b) × (cache_tag a ≡ cache_tag b))
same_line_iff a b = (λ h. omega arith, λ h. omega arith)

-- A hit returns the line's bytes, where they are asked for, and changes no line.
read_hit :
    (c : MicroCache) (addr size : ℕ)
    → line_hits (c.lines (cache_index addr)) addr ≡ true
    → cache_offset addr + size ≤ l0_line_size
    → let (status, out, c') = read_cache c addr true size in
      (status ≡ success)
      × (out ≡ some (copy_out (c.lines (cache_index addr)) (cache_offset addr)))
      × (c'.lines ≡ c.lines)
unfolding read_cache
read_hit c addr size hit h =
    let fit : leb size (l0_line_size - cache_offset addr) ≡ true = ground arith in
    rw (hit, fit) (refl, refl, refl)

module _ (c : MicroCache) (addr : ℕ) (buffer : Array ℕ) (size : ℕ) where
  abbrev pub written : CacheLine
  written = (write_cache c addr true buffer size).lines (cache_index addr)

  write_hits : line_hits written addr ≡ true
  unfolding write_cache
  write_hits = ground arith

  write_stores :
      cache_offset addr + size ≤ l0_line_size
      → (k : ℕ) → k < size
      → written.bytes (cache_offset addr + k) ≡ buffer k
  unfolding write_cache
  write_stores h k hk =
      let back : cache_offset addr + k - cache_offset addr ≡ k = omega arith in ground (arith, back)

  -- A read of the bytes that a write within one line has just stored hits and returns those bytes.
  pub read_cache-write_cache :
      cache_offset addr + size ≤ l0_line_size
      → let (status, out, _) = read_cache (write_cache c addr true buffer size) addr true size in
        (status ≡ success)
        × ((bytes : Array ℕ) × (out ≡ some bytes) × ((k : ℕ) → k < size → bytes k ≡ buffer k))
  read_cache-write_cache h =
      let (ok, out, _) = read_hit (write_cache c addr true buffer size) addr size write_hits h in
      (ok, (_, out, write_stores h))

  -- A write that hits changes no byte of its line outside its range, and no write changes a line
  -- with another index.
  pub write_cache-frame :
      (line_hits (c.lines (cache_index addr)) addr ≡ true
        → (j : ℕ) → (j < cache_offset addr) ⊎ (cache_offset addr + size ≤ j)
        → written.bytes j ≡ (c.lines (cache_index addr)).bytes j)
      × ((i : ℕ) → i ≢ cache_index addr → (write_cache c addr true buffer size).lines i ≡ c.lines i)
  unfolding write_cache
  write_cache-frame = (λ hit j out. ground arith, λ i ne. ground arith)

-- After a read that misses, the same read returns EFI_SUCCESS with zeros: the miss leaves a valid
-- line of zeros that nothing has filled.
pub read_cache-miss_fills_zeros :
    (c : MicroCache) (addr size : ℕ)
    → cache_offset addr + size ≤ l0_line_size
    → (read_cache c addr true size).0 ≡ warn_not_found
    → let (status, out, _) = read_cache (read_cache c addr true size).2 addr true size in
      (status ≡ success) × (out ≡ some (λ _. 0))
read_cache-miss_fills_zeros c addr size h miss =
    let c' = (read_cache c addr true size).2 in
    let left : c'.lines (cache_index addr) ≡ fresh_line (cache_tag addr) =
      unfold read_cache in ground arith in
    let hit : line_hits (c'.lines (cache_index addr)) addr ≡ true = rw left (ground arith) in
    let (ok, out, _) = read_hit c' addr size hit h in (ok, rw left at out)

-- After an invalidation of its line, a read misses; reads of other lines are as before.
pub read_cache-invalidate_line :
    (c : MicroCache) (addr other size : ℕ) (has_data : Bool)
    → ((read_cache (invalidate_line c addr) addr has_data size).0 ≡ warn_not_found)
      × (addr / l0_line_size ≢ other / l0_line_size
          → (read_cache (invalidate_line c addr) other has_data size).0
            ≡ (read_cache c other has_data size).0)
unfolding read_cache invalidate_line
read_cache-invalidate_line c addr other size has_data =
    (ground arith, λ ne. ground (arith, same_line_iff addr other))
