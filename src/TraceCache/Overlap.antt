-- ===== src/TraceCache/Overlap.antt =====
-- The entries of the trace cache grow into its bucket table: warming a large kernel does it.
use bemi_bios.Prelude.{
  ℕ, zero, suc, ◌+◌, ◌*◌, ◌/◌, ◌%◌, ◌^◌, ◌≤◌, ◌<◌, ◌≡◌, ◌≢◌, inl, inr, refl, sym, ap, ◌∙◌, Bool,
  true, false, Option, none, some, leb, ltb, ◌==◌, if◌then◌else◌, Array, arith, Bool-cases,
  Option-cases,
}
use bemi_bios.TraceCache.{
  TraceEntry, TraceCache, max_entries, bucket_bytes, entry_bytes, bucket_chain, slot_count, hash,
  find, below_buckets, init, start, fresh, default_size, header_bytes, link, warm_blocks,
  warm_kernel,
}
use bemi_bios.Efi.{success}
use bemi_bios.TraceCache.Chains.{Below, Descends, search-Below, first_hit-hits}
use bemi_bios.TraceCache.Valid.{IsValid}
use bemi_bios.TraceCache.Inserts.{link-IsValid}
use bemi_bios.TraceCache.Contents.{insert-absent}

-- A cache that holds the first i blocks of a kernel and nothing else.
unfoldable pub Warm : TraceCache → ℕ → ℕ → Type 0
Warm s base i =
    IsValid s
    × (s.initialized ≡ true)
    × (s.next_slot ≡ i)
    × (s.entry_count ≡ i)
    × (s.size ≤ 0x800000)
    × ((k : ℕ) → k < i → (s.slots k).rip ≡ base + 64 * k)

-- An address behind the blocks is not found.
Warm-absent : (s : TraceCache) (base i : ℕ) → Warm s base i → find s (base + 64 * i) 0 ≡ none
unfolding Warm find IsValid
Warm-absent s base i (v, on, next, count, size, rips) =
    let rip = base + 64 * i in
    let (room, links, heads) = v in
    elim (Option-cases (find s rip 0)) [
      | inl e ↦ e
      | inr (k, e) ↦
          let used : k < s.next_slot =
            search-Below s.slots s.next_slot (slot_count s) (s.buckets (hash rip 0)) rip 0 k links
              (heads (hash rip 0)) e in
          let hits = first_hit-hits s.slots rip 0 k (bucket_chain s (hash rip 0)) e in
          let at = rips k (omega (arith, used, next)) in
          absurd (ground (arith, used, next, at, hits))
    ]

Warm-link :
    (s : TraceCache) (base i : ℕ)
    → Warm s base i
    → below_buckets s s.next_slot ≡ true
    → Warm (link s s.next_slot (base + 64 * i) 0) base (i + 1)
unfolding Warm IsValid
Warm-link s base i (v, on, next, count, size, rips) below = (
  link-IsValid s (base + 64 * i) 0 v below,
  on,
  omega (arith, next),
  omega (arith, count, v.0 on, next),
  size,
  λ k lt. elim (Bool-cases (k == s.next_slot)) [
    | inl e ↦ rw e (ground (arith, next))
    | inr e ↦ rw e (rips k (ground (arith, next)))
  ],
)

Warm-few : (s : TraceCache) (base i : ℕ) → Warm s base i → s.entry_count < max_entries
unfolding Warm IsValid
Warm-few s base i (v, on, next, count, size, rips) = omega (arith, v.0 on, size, next, count)

pub warm_blocks-overlaps :
    (n i base : ℕ) (s : TraceCache)
    → Warm s base i
    → base + 64 * (i + n) ≤ 2 ^ 64
    → s.size < (i + n) * entry_bytes + bucket_bytes
    → warm_blocks s ((base + 64 * i) % 2 ^ 64) n ≡ none
unfolding warm_blocks Warm IsValid
warm_blocks-overlaps zero i base s (v, on, next, count, size, rips) fits over =
    absurd (omega (arith, v.0 on, next))
warm_blocks-overlaps (suc n) i base s w fits over =
    let (v, on, next, _, _, _) = w in
    let rip = base + 64 * i in
    let small : rip % 2 ^ 64 ≡ rip = omega (arith, fits) in
    let added = insert-absent s rip 0 v on (Warm-few s base i w) (Warm-absent s base i w) in
    let linked = link s s.next_slot rip 0 in
    let go : Option (Option ℕ × TraceCache) → Option TraceCache = λ r.
      elim r as (λ _. Option TraceCache) [
        | none ↦ none
        | some (_, s') ↦ warm_blocks s' ((rip + 64) % 2 ^ 64) n
      ] in
    let outcome : Bool → Option (Option ℕ × TraceCache) =
      λ b. if b then some (some s.next_slot, linked) else none in
    let further : (rip + 64) % 2 ^ 64 ≡ (base + 64 * (i + 1)) % 2 ^ 64 =
      ap (λ x. x % 2 ^ 64) (omega arith) in
    let first : warm_blocks s (rip % 2 ^ 64) (suc n) ≡ go (outcome (below_buckets s s.next_slot)) =
      ap (λ x. warm_blocks s x (suc n)) small ∙ ap go added in
    elim (Bool-cases (below_buckets s s.next_slot)) [
      | inr e ↦ first ∙ ap (λ b. go (outcome b)) e
      | inl e ↦
          first
          ∙ ap (λ b. go (outcome b)) e
          ∙ ap (λ x. warm_blocks linked x n) further
          ∙ warm_blocks-overlaps n (i + 1) base linked (Warm-link s base i w e)
              (omega (arith, fits)) (omega (arith, over))
    ]

fresh-Warm :
    (memory : Array TraceEntry) (bytes kernel : ℕ)
    → bucket_bytes + header_bytes ≤ bytes
    → bytes ≤ 0x800000
    → Warm (fresh memory bytes) kernel 0
unfolding Warm IsValid Descends Below
fresh-Warm memory bytes kernel large small = (
  (λ on. omega arith, λ k lt. absurd (omega arith), λ b. tt),
  refl,
  refl,
  refl,
  omega arith,
  λ k lt. absurd (omega arith),
)

-- TraceCacheInit takes a region of up to 8 MB that is larger than header and table; warming a kernel
-- that is larger than what is left of the region without them then writes an entry over the bucket
-- table, if the kernel ends at least 63 bytes below the end of the address space.
pub warm_kernel-overlaps :
    (memory : Array TraceEntry) (base bytes kernel size : ℕ)
    → base ≢ 0
    → bucket_bytes + header_bytes ≤ bytes
    → bytes ≤ 0x800000
    → bytes < size + (bucket_bytes + header_bytes)
    → kernel + size + 63 ≤ 2 ^ 64
    → (init memory base bytes ≡ some (success, fresh memory bytes))
      × (warm_kernel (fresh memory bytes) kernel size ≡ none)
unfolding init start warm_kernel
warm_kernel-overlaps memory base bytes kernel size given large small over fits =
    let there : (base == 0) ≡ false = ground arith in
    let region : (if ltb bytes 4096 then default_size else bytes) ≡ bytes = ground arith in
    let above : leb bytes (bucket_bytes + 40) ≡ false = ground arith in
    let whole : ltb bytes (bucket_bytes + header_bytes) ≡ false = ground arith in
    let from : (kernel + 64 * 0) % 2 ^ 64 ≡ kernel % 2 ^ 64 = ap (λ x. x % 2 ^ 64) (omega arith) in
    (
      rw (there, region, start, above, whole) refl,
      ap (λ x. warm_blocks (fresh memory bytes) x ((size + 63) / 64)) (sym from)
          ∙ warm_blocks-overlaps ((size + 63) / 64) 0 kernel (fresh memory bytes)
              (fresh-Warm memory bytes kernel large small) (omega arith) (omega arith),
    )
