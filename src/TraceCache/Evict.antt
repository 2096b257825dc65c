-- ===== src/TraceCache/Evict.antt =====
-- The eviction of the trace cache spares pinned entries.
use bemi_bios.Prelude.{
  ℕ, zero, suc, ◌+◌, ◌-◌, ◌/◌, ◌%◌, ◌≡◌, ◌≢◌, ◌⊎◌, inl, inr, refl, sym, ap, subst, ◌∙◌, Bool, true,
  false, Option, none, some, List, [], ◌∷◌, leb, ltb, ◌==◌, ◌&&◌, if◌then◌else◌, Array, arith,
  Bool-cases, ==_iff,
}
use bemi_bios.TraceCache.{
  TraceEntry, TraceCache, Scan, hash_buckets, max_entries, entry_hits, entry_bytes, first_hit,
  chain, bucket_chain, slot_count, hash, find, scan_entry, scan_chain, scan_buckets, first_scan,
  drop_victim, evict_lru, below_buckets, link, make_room, insert_found, insert,
}
use bemi_bios.TraceCache.Chains.{chain-links, first_hit-hits}
use bemi_bios.TraceCache.Valid.{
  IsValid, SameLinks, IsValid-links, evict_lru-SameLinks, make_room-SameLinks,
}
use bemi_bios.TraceCache.Inserts.{Leaves, insert_on, add_entry_lem}
use bemi_bios.TraceCache.Keys.{link-find_other}
use bemi_bios.TraceCache.Contents.{touched, touched-find}

-- The victim so far, if there is one, is valid and not pinned.
unfoldable Evictable : Array TraceEntry → Option ℕ → Type 0
Evictable slots none = Unit {0}
Evictable slots (some k) = ((slots k).valid ≡ true) × ((slots k).pin_count ≡ 0)

scan_entry-Evictable :
    (slots : Array TraceEntry) (k : ℕ) (c : Scan)
    → Evictable slots c.victim
    → Evictable slots (scan_entry slots k c).victim
unfolding Evictable
scan_entry-Evictable slots k c h = elim (Bool-cases ((slots k).valid && (slots k).pin_count == 0)) [
  | inr e ↦ rw e h
  | inl e ↦ elim (Bool-cases (ltb (slots k).lru_counter c.min_lru)) [
    | inl f ↦ rw (e, f) (ground arith, ground arith)
    | inr f ↦ rw (e, f) h
  ]
]

scan_chain-Evictable :
    (slots : Array TraceEntry) (depth : ℕ) (ks : List ℕ) (c : Scan)
    → Evictable slots c.victim
    → Evictable slots (scan_chain slots depth ks c).victim
unfolding scan_chain
scan_chain-Evictable slots depth [] c h = h
scan_chain-Evictable slots depth (k ∷ ks) c h = elim (Bool-cases (ltb c.scanned depth)) [
  | inl e ↦ rw e (
      scan_chain-Evictable slots depth ks (scan_entry slots k c) (scan_entry-Evictable slots k c h))
  | inr e ↦ rw e h
]

scan_buckets-Evictable :
    (s : TraceCache) (n : ℕ) (c : Scan)
    → Evictable s.slots c.victim
    → Evictable s.slots (scan_buckets s n c).victim
unfolding scan_buckets
scan_buckets-Evictable s zero c h = h
scan_buckets-Evictable s (suc n) c h =
    let b = (s.lru % hash_buckets + (hash_buckets - suc n)) % hash_buckets in
    elim (Bool-cases (ltb c.scanned s.lru_scan_depth)) [
      | inl e ↦ rw e (
          scan_buckets-Evictable s n (scan_chain s.slots s.lru_scan_depth (bucket_chain s b) c)
            (scan_chain-Evictable s.slots s.lru_scan_depth (bucket_chain s b) c h))
      | inr e ↦ rw e h
    ]

drop_victim-pinned :
    (s : TraceCache) (o : Option ℕ) (k : ℕ)
    → Evictable s.slots o
    → (s.slots k).pin_count ≢ 0
    → (drop_victim s o).slots k ≡ s.slots k
unfolding drop_victim Evictable
drop_victim-pinned s none k h pinned = refl
drop_victim-pinned s (some j) k (valid, free) pinned = elim (Bool-cases (k == j)) [
  | inl e ↦ absurd (pinned (ap (λ i. (s.slots i).pin_count) ((==_iff _ _).0 e) ∙ free))
  | inr e ↦ rw e refl
]

evict_lru-pinned :
    (s : TraceCache) (k : ℕ) → (s.slots k).pin_count ≢ 0 → (evict_lru s).slots k ≡ s.slots k
unfolding evict_lru Evictable
evict_lru-pinned s k pinned =
    let victim = (scan_buckets s hash_buckets first_scan).victim in
    drop_victim-pinned s victim k (scan_buckets-Evictable s hash_buckets first_scan tt) pinned

-- An eviction makes no entry hit that did not.
drop_victim-hits :
    (s : TraceCache) (o : Option ℕ) (rip context k : ℕ)
    → entry_hits (s.slots k) rip context ≡ false
    → entry_hits ((drop_victim s o).slots k) rip context ≡ false
unfolding drop_victim
drop_victim-hits s none rip context k h = h
drop_victim-hits s (some j) rip context k h = ground arith

first_hit-fewer :
    (slots slots' : Array TraceEntry) (rip context k : ℕ) (ks : List ℕ)
    → ((j : ℕ)
        → entry_hits (slots j) rip context ≡ false
        → entry_hits (slots' j) rip context ≡ false)
    → entry_hits (slots' k) rip context ≡ true
    → first_hit slots rip context ks ≡ some k
    → first_hit slots' rip context ks ≡ some k
unfolding first_hit
first_hit-fewer slots slots' rip context k [] fewer hit h = ground arith
first_hit-fewer slots slots' rip context k (j ∷ ks) fewer hit h =
    elim (Bool-cases (entry_hits (slots j) rip context)) [
      | inl e ↦ let same : j ≡ k = ground arith in rw (same, hit) refl
      | inr e ↦
          rw (fewer j e) (first_hit-fewer slots slots' rip context k ks fewer hit (ground arith))
    ]

find-evict_lru :
    (s : TraceCache) (rip context k : ℕ)
    → find s rip context ≡ some k
    → (s.slots k).pin_count ≢ 0
    → find (evict_lru s) rip context ≡ some k
unfolding find evict_lru SameLinks
find-evict_lru s rip context k found pinned =
    let s' = evict_lru s in
    let b = hash rip context in
    let (size, _, _, buckets, links) = evict_lru-SameLinks s in
    let hit = first_hit-hits s.slots rip context k (bucket_chain s b) found in
    ap (λ z. first_hit s'.slots rip context (chain s'.slots (z / entry_bytes) (s'.buckets b))) size
    ∙ ap (λ h. first_hit s'.slots rip context (chain s'.slots (slot_count s) (h b))) buckets
    ∙ ap (first_hit s'.slots rip context)
        (chain-links s.slots s'.slots (slot_count s) (s.buckets b) links)
    ∙ first_hit-fewer s.slots s'.slots rip context k (bucket_chain s b)
        (λ j. drop_victim-hits s (scan_buckets s hash_buckets first_scan).victim rip context j)
        (ap (λ e. entry_hits e rip context) (evict_lru-pinned s k pinned) ∙ hit) found

find-make_room :
    (s : TraceCache) (rip context k : ℕ)
    → find s rip context ≡ some k
    → (s.slots k).pin_count ≢ 0
    → find (make_room s) rip context ≡ some k
find-make_room s rip context k found pinned = elim (Bool-cases (leb max_entries s.entry_count)) [
  | inl e ↦
      subst (λ b. find (if b then evict_lru s else s) rip context ≡ some k) (sym e)
        (find-evict_lru s rip context k found pinned)
  | inr e ↦ subst (λ b. find (if b then evict_lru s else s) rip context ≡ some k) (sym e) found
]

abbrev pub Found : ℕ → ℕ → ℕ → Option ℕ × TraceCache → Type 0
Found rip context k r = find r.1 rip context ≡ some k

insert_found-pinned :
    (s : TraceCache) (rip context rip' context' k : ℕ) (o : Option ℕ)
    → IsValid s
    → s.initialized ≡ true
    → find s rip context ≡ some k
    → (s.slots k).pin_count ≢ 0
    → (rip' ≢ rip) ⊎ (context' ≢ context)
    → Leaves (Found rip context k) (insert_found s rip' context' o)
unfolding insert_found touched Leaves SameLinks
insert_found-pinned s rip context rip' context' k (some j) v on found pinned other =
    touched-find s j rip context v ∙ found
insert_found-pinned s rip context rip' context' k none v on found pinned other =
    let t = make_room s in
    let same = make_room-SameLinks s in
    let on' : t.initialized ≡ true = same.2 ∙ on in
    let v' = IsValid-links s t same v in
    subst (Leaves (Found rip context k)) (sym (add_entry_lem t rip' context' v' on'))
      (elim (Bool-cases (below_buckets t t.next_slot)) [
        | inl e ↦
            subst (λ b. Leaves (Found rip context k) (outcome t b)) (sym e)
              (link-find_other t rip' context' rip context v' on' other
                ∙ find-make_room s rip context k found pinned)
        | inr e ↦ subst (λ b. Leaves (Found rip context k) (outcome t b)) (sym e) tt
      ])
  where
    outcome : TraceCache → Bool → Option (Option ℕ × TraceCache)
    outcome t b = if b then some (some t.next_slot, link t t.next_slot rip' context') else none

-- A pinned entry of an initialised valid cache survives every insertion of another address or
-- context that does not run into the bucket table, also when the cache is full and the insertion
-- evicts an entry: a search finds it in its slot.
pub insert-pinned :
    (s : TraceCache) (rip context rip' context' k : ℕ)
    → IsValid s
    → s.initialized ≡ true
    → find s rip context ≡ some k
    → (s.slots k).pin_count ≢ 0
    → (rip' ≢ rip) ⊎ (context' ≢ context)
    → Leaves (Found rip context k) (insert s rip' context')
insert-pinned s rip context rip' context' k v on found pinned other =
    subst (Leaves (Found rip context k)) (sym (insert_on s rip' context' on)) (
      insert_found-pinned s rip context rip' context' k (find s rip' context') v on found pinned
        other)
