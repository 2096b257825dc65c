-- ===== src/TraceCache/Contents.antt =====
-- What an insertion leaves in the trace cache.
use bemi_bios.Prelude.{
  ℕ, ◌/◌, ◌<◌, ◌≡◌, ◌≢◌, ◌⊎◌, inl, inr, refl, sym, ap, subst, ◌∙◌, true, false, Option, none, some,
  leb, ◌==◌, if◌then◌else◌, arith, Bool-cases, ==_iff, inc64,
}
use bemi_bios.TraceCache.{
  TraceEntry, TraceCache, max_entries, entry_bytes, entry_hits, slot_count, hash, find, set_slot,
  below_buckets, link, make_room, evict_lru, touch, add_entry, insert_found, insert,
}
use bemi_bios.TraceCache.Chains.{search, search-agree}
use bemi_bios.TraceCache.Valid.{IsValid, SameLinks, set_slot-SameLinks}
use bemi_bios.TraceCache.Inserts.{Leaves, insert_on, add_entry_lem}
use bemi_bios.TraceCache.Keys.{link-find_self, link-find_other}

-- A search depends on the links and on what hits.
pub find-agree :
    (s s' : TraceCache) (rip context : ℕ)
    → IsValid s
    → SameLinks s s'
    → ((k : ℕ) → entry_hits (s'.slots k) rip context ≡ entry_hits (s.slots k) rip context)
    → find s' rip context ≡ find s rip context
unfolding find IsValid SameLinks
find-agree s s' rip context (room, links, heads) (size, next, on, buckets, same) hits =
    let b = hash rip context in
    ap (λ z. search s'.slots (z / entry_bytes) (s'.buckets b) rip context) size
    ∙ ap (λ h. search s'.slots (slot_count s) (h b) rip context) buckets
    ∙ search-agree s.slots s'.slots s.next_slot (slot_count s) (s.buckets b) rip context links
        (heads b) (λ k lt. same k) (λ k lt. hits k)

-- An entry changed without its key.
set_slot-hits :
    (s : TraceCache) (k : ℕ) (e : TraceEntry) (rip context j : ℕ)
    → entry_hits e rip context ≡ entry_hits (s.slots k) rip context
    → entry_hits ((set_slot s k e).slots j) rip context ≡ entry_hits (s.slots j) rip context
set_slot-hits s k e rip context j h = elim (Bool-cases (j == k)) [
  | inl i ↦ rw (i, (==_iff _ _).0 i) h
  | inr i ↦ rw i refl
]

-- What an insertion should do: the key is found where the insertion says, and other keys are found
-- where they were.
unfoldable pub Inserted : TraceCache → ℕ → ℕ → Option ℕ × TraceCache → Type 0
Inserted s rip context (hit, s') =
    ((k : ℕ) × (hit ≡ some k) × (find s' rip context ≡ some k))
    × ((rip' context' : ℕ)
        → (rip ≢ rip') ⊎ (context ≢ context')
        → find s' rip' context' ≡ find s rip' context')

add_entry-Inserted :
    (s : TraceCache) (rip context : ℕ)
    → IsValid s
    → s.initialized ≡ true
    → Leaves (Inserted s rip context) (add_entry s rip context)
unfolding Leaves Inserted
add_entry-Inserted s rip context v on =
    subst (Leaves (Inserted s rip context)) (sym (add_entry_lem s rip context v on))
      (elim (Bool-cases (below_buckets s s.next_slot)) [
        | inl e ↦ rw e (
          (s.next_slot, refl, link-find_self s rip context v on),
          λ rip' context' other. link-find_other s rip context rip' context' v on other,
        )
        | inr e ↦ rw e tt
      ])

unfoldable pub touched : TraceCache → ℕ → TraceCache
touched s k = record (set_slot s k (touch s (s.slots k))) { lru = inc64 s.lru }

pub touched-find :
    (s : TraceCache) (k rip context : ℕ)
    → IsValid s
    → find (touched s k) rip context ≡ find s rip context
unfolding touched SameLinks
touched-find s k rip context v =
    find-agree s (touched s k) rip context v (set_slot-SameLinks s k (touch s (s.slots k)) refl)
      (λ j. set_slot-hits s k (touch s (s.slots k)) rip context j refl)

make_room-kept : (s : TraceCache) → s.entry_count < max_entries → make_room s ≡ s
make_room-kept s few =
    let room : leb max_entries s.entry_count ≡ false = ground arith in
    ap (λ b. if b then evict_lru s else s) room

insert_found-Inserted :
    (s : TraceCache) (rip context : ℕ) (o : Option ℕ)
    → IsValid s
    → s.initialized ≡ true
    → s.entry_count < max_entries
    → find s rip context ≡ o
    → Leaves (Inserted s rip context) (insert_found s rip context o)
unfolding insert_found touched Leaves Inserted
insert_found-Inserted s rip context (some k) v on few found = (
  (k, refl, touched-find s k rip context v ∙ found),
  λ rip' context' other. touched-find s k rip' context' v,
)
insert_found-Inserted s rip context none v on few found =
    let kept = make_room-kept s few in
    subst (λ t. Leaves (Inserted s rip context) (add_entry t rip context)) (sym kept)
      (add_entry-Inserted s rip context v on)

-- An insertion into an initialised valid cache of less than 131072 entries, unless it runs into the
-- bucket table, returns the slot at which a search then finds the key, and a search for any other
-- address or context finds what it found before.
pub insert-find :
    (s : TraceCache) (rip context : ℕ)
    → IsValid s
    → s.initialized ≡ true
    → s.entry_count < max_entries
    → Leaves (Inserted s rip context) (insert s rip context)
insert-find s rip context v on few =
    subst (Leaves (Inserted s rip context)) (sym (insert_on s rip context on))
      (insert_found-Inserted s rip context (find s rip context) v on few refl)

pub insert-absent :
    (s : TraceCache) (rip context : ℕ)
    → IsValid s
    → s.initialized ≡ true
    → s.entry_count < max_entries
    → find s rip context ≡ none
    → insert s rip context ≡ (
        if below_buckets s s.next_slot
        then some (some s.next_slot, link s s.next_slot rip context)
        else none)
unfolding insert_found
insert-absent s rip context v on few absent =
    insert_on s rip context on
    ∙ ap (insert_found s rip context) absent
    ∙ ap (λ t. add_entry t rip context) (make_room-kept s few)
    ∙ add_entry_lem s rip context v on
