-- ===== src/TraceCache/Tests.antt =====
-- The trace cache in a region of 4 MB.
use bemi_bios.Prelude.{
  ◌≡◌, inl, refl, true, false, none, some, List, [], ◌∷◌, ◌==◌, if◌then◌else◌, Array, arith, inc32,
}
use bemi_bios.Efi.{success}
use bemi_bios.TraceCache.{
  TraceEntry, TraceCache, fresh, init, hash, chain, first_hit, find, lookup_found, lookup,
  pin_found, change_pins, pin_entry, insert, invalidate, link, bucket_chain, warm_kernel,
}
use bemi_bios.TraceCache.Chains.{Below, Descends}
use bemi_bios.TraceCache.Valid.{IsValid, IsValid-links, change_pins-SameLinks}
use bemi_bios.TraceCache.Inserts.{Leaves, link-IsValid}
use bemi_bios.TraceCache.Runs.{Operation, put_in, pin, drop, set_v72, warm, run, run-IsValid}
use bemi_bios.TraceCache.Keys.{bucket_chain-IsWhole}
use bemi_bios.TraceCache.Contents.{Inserted, insert-find}
use bemi_bios.TraceCache.Removal.{find-invalidate}
use bemi_bios.TraceCache.Overlap.{warm_kernel-overlaps}
use bemi_bios.TraceCache.Evict.{Found, insert-pinned}

abbrev memory : Array TraceEntry
memory k = record {
  rip = 0;
  context = 0;
  translated_addr = 0;
  micro_op_count = 0;
  instruction_count = 0;
  execution_count = 0;
  pin_count = 0;
  dbo_hint = 0;
  lru_counter = 0;
  valid = false;
  next = none;
}

abbrev cache : TraceCache
cache = fresh memory 0x400000

cache-IsValid : IsValid cache
unfolding IsValid Descends Below
cache-IsValid = (λ on. omega arith, λ k lt. absurd (omega arith), λ b. tt)

-- One entry.
abbrev with_entry : TraceCache
with_entry = link cache 0 0x1000 0

with_entry-IsValid : IsValid with_entry
with_entry-IsValid = link-IsValid cache 0x1000 0 cache-IsValid refl

-- The entry pinned.
abbrev pinned : TraceCache
pinned = pin_entry with_entry 0x1000 0

pinned-IsValid : IsValid pinned
pinned-IsValid =
    IsValid-links with_entry pinned (change_pins-SameLinks inc32 with_entry 0x1000 0)
      with_entry-IsValid

abbrev operations : List Operation
operations =
    put_in 0x1000 0 ∷ pin 0x1000 0 ∷ set_v72 ∷ warm 0xFFFF800000000000 4096 ∷ drop 0x1000 ∷ []

run-IsValid_example :
    Leaves (λ r. Leaves IsValid (run r.1 operations)) (init memory 0x100000 0x400000)
run-IsValid_example = run-IsValid memory 0x100000 0x400000 operations

bucket_chain-IsWhole_example :
    chain with_entry.slots 70000 (with_entry.buckets (hash 0x1000 0))
    ≡ bucket_chain with_entry (hash 0x1000 0)
bucket_chain-IsWhole_example =
    bucket_chain-IsWhole with_entry (hash 0x1000 0) 70000 with_entry-IsValid refl (omega arith)

insert-find_example : Leaves (Inserted with_entry 0x2000 7) (insert with_entry 0x2000 7)
insert-find_example = insert-find with_entry 0x2000 7 with_entry-IsValid refl (omega arith)

find-invalidate_example :
    find (invalidate with_entry 0x1000) 0x1000 0
    ≡ (if 0x1000 == 0x1000 then none else find with_entry 0x1000 0)
find-invalidate_example = find-invalidate with_entry 0x1000 0x1000 0 with_entry-IsValid

pinned_found : find pinned 0x1000 0 ≡ some 0
unfolding find hash chain first_hit change_pins pin_found lookup lookup_found
pinned_found = refl

pinned_count : (pinned.slots 0).pin_count ≡ 1
unfolding find hash chain first_hit change_pins pin_found lookup lookup_found
pinned_count = refl

pinned_on : pinned.initialized ≡ true
unfolding find hash chain first_hit change_pins pin_found lookup lookup_found
pinned_on = refl

insert-pinned_example : Leaves (Found 0x1000 0 0) (insert pinned 0x2000 0)
insert-pinned_example =
    insert-pinned pinned 0x1000 0 0x2000 0 0 pinned-IsValid pinned_on pinned_found
      (λ e. omega (arith, e, pinned_count)) (inl (λ e. omega arith))

-- A kernel of 4 MB in a region of 4 MB.
warm_kernel-overlaps_example :
    (init memory 0x100000 0x400000 ≡ some (success, cache))
    × (warm_kernel cache 0xFFFF800000000000 0x400000 ≡ none)
warm_kernel-overlaps_example =
    warm_kernel-overlaps memory 0x100000 0x400000 0xFFFF800000000000 0x400000 (λ e. omega arith)
      (omega arith) (omega arith) (omega arith) (omega arith)
