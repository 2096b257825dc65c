-- ===== src/TraceCache/Valid.antt =====
-- The trace cache's invariant: every operation keeps the links.
use bemi_bios.Prelude.{
  ℕ, zero, suc, ◌+◌, ◌-◌, ◌*◌, ◌≤◌, ◌≡◌, inl, inr, refl, sym, ap, subst, ◌∙◌, true, false, Option,
  none, some, List, [], ◌∷◌, leb, ◌==◌, ◌&&◌, if◌then◌else◌, Array, update, arith, Bool-cases,
}
use bemi_bios.TraceCache.{
  TraceEntry, TraceCache, bucket_bytes, entry_bytes, hash_buckets, find, lookup, lookup_found,
  count_execution, set_slot, scan_buckets, clear_valid, evict_lru, make_room, max_entries,
  first_scan, drop_victim, pin_found, set_pins, change_pins, invalidate_chain, invalidate_buckets,
  invalidate, bucket_chain,
}
use bemi_bios.TraceCache.Chains.{Below, Descends}

-- The entries in use end below the bucket table, and every link, from a bucket or an entry, leads to
-- an earlier entry in use.
unfoldable pub IsValid : TraceCache → Type 0
IsValid s =
    (s.initialized ≡ true → s.next_slot * entry_bytes + bucket_bytes ≤ s.size)
    × Descends s.slots s.next_slot
    × ((b : ℕ) → Below (s.buckets b) s.next_slot)

-- The same links, header and number of slots.
unfoldable pub SameLinks : TraceCache → TraceCache → Type 0
SameLinks s s' =
    (s'.size ≡ s.size)
    × (s'.next_slot ≡ s.next_slot)
    × (s'.initialized ≡ s.initialized)
    × (s'.buckets ≡ s.buckets)
    × ((k : ℕ) → (s'.slots k).next ≡ (s.slots k).next)

pub SameLinks-refl : (s : TraceCache) → SameLinks s s
unfolding SameLinks
SameLinks-refl s = (refl, refl, refl, refl, λ k. refl)

pub SameLinks-trans : (s s' s'' : TraceCache) → SameLinks s s' → SameLinks s' s'' → SameLinks s s''
unfolding SameLinks
SameLinks-trans s s' s'' (a, b, c, d, e) (a', b', c', d', e') =
    (a' ∙ a, b' ∙ b, c' ∙ c, d' ∙ d, λ k. e' k ∙ e k)

pub IsValid-links : (s s' : TraceCache) → SameLinks s s' → IsValid s → IsValid s'
unfolding IsValid SameLinks Descends
IsValid-links s s' (a, b, c, d, e) (room, links, heads) = (
  λ on. rw (a, b) (room (sym c ∙ on)),
  λ k lt. rw (e k) (links k (omega (arith, b, lt))),
  λ i. rw (d, b) (heads i),
)

-- An entry changed without its link.
pub set_slot-SameLinks :
    (s : TraceCache) (k : ℕ) (e : TraceEntry)
    → e.next ≡ (s.slots k).next
    → SameLinks s (set_slot s k e)
unfolding SameLinks
set_slot-SameLinks s k e h = (
  refl,
  refl,
  refl,
  refl,
  λ j. elim (Bool-cases (j == k)) [ inl i ↦ ground arith | inr i ↦ rw i refl ],
)

pub lookup_on :
    (s : TraceCache) (rip context : ℕ)
    → s.initialized ≡ true
    → lookup s rip context ≡ lookup_found s (find s rip context)
unfolding lookup
lookup_on s rip context on =
    ap (λ b. if b then lookup_found s (find s rip context) else (none, s)) on

lookup_off :
    (s : TraceCache) (rip context : ℕ) → s.initialized ≡ false → lookup s rip context ≡ (none, s)
unfolding lookup
lookup_off s rip context off =
    ap (λ b. if b then lookup_found s (find s rip context) else (none, s)) off

lookup_found-SameLinks : (s : TraceCache) (o : Option ℕ) → SameLinks s (lookup_found s o).1
unfolding lookup_found SameLinks
lookup_found-SameLinks s none = SameLinks-refl s
lookup_found-SameLinks s (some k) = set_slot-SameLinks s k (count_execution s (s.slots k)) refl

pub lookup-SameLinks : (s : TraceCache) (rip context : ℕ) → SameLinks s (lookup s rip context).1
lookup-SameLinks s rip context = elim (Bool-cases s.initialized) [
  | inr e ↦ subst (λ r. SameLinks s r.1) (sym (lookup_off s rip context e)) (SameLinks-refl s)
  | inl e ↦
      subst (λ r. SameLinks s r.1) (sym (lookup_on s rip context e))
        (lookup_found-SameLinks s (find s rip context))
]

pin_found-SameLinks : (f : ℕ → ℕ) (r : Option ℕ × TraceCache) → SameLinks r.1 (pin_found f r)
unfolding pin_found
pin_found-SameLinks f (none, s) = SameLinks-refl s
pin_found-SameLinks f (some k, s) = set_slot-SameLinks s k (set_pins f (s.slots k)) refl

pub change_pins-SameLinks :
    (f : ℕ → ℕ) (s : TraceCache) (rip context : ℕ) → SameLinks s (change_pins f s rip context)
unfolding change_pins
change_pins-SameLinks f s rip context =
    SameLinks-trans s (lookup s rip context).1 (change_pins f s rip context)
      (lookup-SameLinks s rip context) (pin_found-SameLinks f (lookup s rip context))

drop_victim-SameLinks : (s : TraceCache) (o : Option ℕ) → SameLinks s (drop_victim s o)
unfolding drop_victim SameLinks
drop_victim-SameLinks s none = SameLinks-refl s
drop_victim-SameLinks s (some k) = set_slot-SameLinks s k (clear_valid (s.slots k)) refl

pub evict_lru-SameLinks : (s : TraceCache) → SameLinks s (evict_lru s)
unfolding evict_lru
evict_lru-SameLinks s = drop_victim-SameLinks s (scan_buckets s hash_buckets first_scan).victim

pub make_room-SameLinks : (s : TraceCache) → SameLinks s (make_room s)
make_room-SameLinks s = elim (Bool-cases (leb max_entries s.entry_count)) [
  | inl e ↦ subst (λ b. SameLinks s (if b then evict_lru s else s)) (sym e) (evict_lru-SameLinks s)
  | inr e ↦ subst (λ b. SameLinks s (if b then evict_lru s else s)) (sym e) (SameLinks-refl s)
]

pub invalidate_chain-next :
    (rip : ℕ) (ks : List ℕ) (slots : Array TraceEntry) (k : ℕ)
    → (invalidate_chain rip ks slots k).next ≡ (slots k).next
unfolding invalidate_chain
invalidate_chain-next rip [] slots k = refl
invalidate_chain-next rip (j ∷ ks) slots k =
    let after : Array TraceEntry =
      if (slots j).valid && (slots j).rip == rip
      then update slots j (clear_valid (slots j))
      else slots in
    let here : (after k).next ≡ (slots k).next = ground arith in
    invalidate_chain-next rip ks after k ∙ here

invalidate_buckets-SameLinks :
    (rip n : ℕ) (s : TraceCache) → SameLinks s (invalidate_buckets rip s n)
unfolding invalidate_buckets SameLinks
invalidate_buckets-SameLinks rip zero s = SameLinks-refl s
invalidate_buckets-SameLinks rip (suc n) s =
    let ks = bucket_chain s (hash_buckets - suc n) in
    let s' : TraceCache = record s { slots = invalidate_chain rip ks s.slots } in
    SameLinks-trans s s' (invalidate_buckets rip s' n)
      (refl, refl, refl, refl, λ k. invalidate_chain-next rip ks s.slots k)
      (invalidate_buckets-SameLinks rip n s')

pub invalidate-SameLinks : (s : TraceCache) (rip : ℕ) → SameLinks s (invalidate s rip)
unfolding invalidate
invalidate-SameLinks s rip = invalidate_buckets-SameLinks rip hash_buckets s
