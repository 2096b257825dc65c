-- ===== src/TraceCache/Inserts.antt =====
-- Insertions into the trace cache keep it valid.
use bemi_bios.Prelude.{
  ℕ, ◌+◌, ◌≡◌, inl, inr, refl, sym, ap, subst, ◌∙◌, true, false, Option, none, some, ◌==◌,
  if◌then◌else◌, arith, Bool-cases, leb→le, inc64,
}
use bemi_bios.TraceCache.{
  TraceCache, hash, find, set_slot, take_slot, below_buckets, link, make_room, touch, add_entry,
  insert_found, insert,
}
use bemi_bios.TraceCache.Chains.{Below, Below-mono, Descends}
use bemi_bios.TraceCache.Valid.{
  IsValid, SameLinks, IsValid-links, set_slot-SameLinks, make_room-SameLinks,
}

pub insert_on :
    (s : TraceCache) (rip context : ℕ)
    → s.initialized ≡ true
    → insert s rip context ≡ insert_found s rip context (find s rip context)
unfolding insert
insert_on s rip context on =
    ap (λ b. if b then insert_found s rip context (find s rip context) else some (none, s)) on

pub insert_off :
    (s : TraceCache) (rip context : ℕ)
    → s.initialized ≡ false
    → insert s rip context ≡ some (none, s)
unfolding insert
insert_off s rip context off =
    ap (λ b. if b then insert_found s rip context (find s rip context) else some (none, s)) off

-- The next slot is free: NextAlloc does not go back to the first one.
pub take_slot-next : (s : TraceCache) → IsValid s → s.initialized ≡ true → take_slot s ≡ s.next_slot
unfolding IsValid
take_slot-next s (room, _, _) on = ground (arith, room on)

Below-next : (n : ℕ) → Below (some n) (n + 1)
unfolding Below
Below-next n = omega arith

pub link-IsValid :
    (s : TraceCache) (rip context : ℕ)
    → IsValid s
    → below_buckets s s.next_slot ≡ true
    → IsValid (link s s.next_slot rip context)
unfolding IsValid Descends
link-IsValid s rip context (room, links, heads) below = (
  λ on. omega (arith, leb→le _ _ below),
  λ k lt. elim (Bool-cases (k == s.next_slot)) [
    | inl e ↦
        rw e
          (subst (Below (s.buckets (hash rip context))) (ground arith) (heads (hash rip context)))
    | inr e ↦ rw e (links k (ground arith))
  ],
  λ b. elim (Bool-cases (b == hash rip context)) [
    | inl e ↦ rw e (Below-next s.next_slot)
    | inr e ↦ rw e (Below-mono (s.buckets b) s.next_slot (s.next_slot + 1) (omega arith) (heads b))
  ],
)

-- An entry is added at the next slot, or the outcome is the overlap with the bucket table.
pub add_entry_lem :
    (s : TraceCache) (rip context : ℕ)
    → IsValid s
    → s.initialized ≡ true
    → add_entry s rip context ≡ (
        if below_buckets s s.next_slot
        then some (some s.next_slot, link s s.next_slot rip context)
        else none)
unfolding add_entry
add_entry_lem s rip context v on =
    ap (λ k. if below_buckets s k then some (some k, link s k rip context) else none)
      (take_slot-next s v on)

-- A property of what an operation leaves, where it does not run into the bucket table.
unfoldable pub Leaves {ℓ} : {A : Type ℓ} → (A → Type 0) → Option A → Type 0
Leaves P none = Unit {0}
Leaves P (some a) = P a

pub add_entry-IsValid :
    (s : TraceCache) (rip context : ℕ)
    → IsValid s
    → s.initialized ≡ true
    → Leaves (λ r. IsValid r.1) (add_entry s rip context)
unfolding Leaves
add_entry-IsValid s rip context v on =
    subst (Leaves (λ r. IsValid r.1)) (sym (add_entry_lem s rip context v on))
      (elim (Bool-cases (below_buckets s s.next_slot)) [
        | inl e ↦ rw e (link-IsValid s rip context v e)
        | inr e ↦ rw e tt
      ])

pub insert_found-IsValid :
    (s : TraceCache) (rip context : ℕ) (o : Option ℕ)
    → IsValid s
    → s.initialized ≡ true
    → Leaves (λ r. IsValid r.1) (insert_found s rip context o)
unfolding Leaves insert_found SameLinks
insert_found-IsValid s rip context (some k) v on =
    IsValid-links s (record (set_slot s k (touch s (s.slots k))) { lru = inc64 s.lru })
      (set_slot-SameLinks s k (touch s (s.slots k)) refl) v
insert_found-IsValid s rip context none v on =
    let same = make_room-SameLinks s in
    add_entry-IsValid (make_room s) rip context (IsValid-links s (make_room s) same v) (same.2 ∙ on)

pub insert-IsValid :
    (s : TraceCache) (rip context : ℕ)
    → IsValid s
    → Leaves (λ r. IsValid r.1) (insert s rip context)
unfolding Leaves
insert-IsValid s rip context v = elim (Bool-cases s.initialized) [
  | inl e ↦
      subst (Leaves (λ r. IsValid r.1)) (sym (insert_on s rip context e))
        (insert_found-IsValid s rip context (find s rip context) v e)
  | inr e ↦ subst (Leaves (λ r. IsValid r.1)) (sym (insert_off s rip context e)) v
]
