-- ===== src/TraceCache/Keys.antt =====
-- The trace cache as a map from addresses and contexts to entries: what insertion and invalidation
-- do to what a search finds.
use bemi_bios.Prelude.{
  ℕ, suc, ◌-◌, ◌≤◌, ◌<◌, ◌≡◌, ◌≢◌, ◌⊎◌, inl, inr, refl, sym, ap, ◌∙◌, true, false, some, ◌==◌,
  if◌then◌else◌, arith, Bool-cases, ==_iff,
}
use bemi_bios.TraceCache.{
  TraceCache, entry_hits, chain, first_hit, slot_count, bucket_chain, hash, find, link,
}
use bemi_bios.TraceCache.Chains.{chain-enough, search, search-cons, search-agree}
use bemi_bios.TraceCache.Valid.{IsValid}

-- The number of slots is fuel enough.
enough_slots : (s : TraceCache) → IsValid s → s.initialized ≡ true → suc s.next_slot ≤ slot_count s
unfolding IsValid
enough_slots s (room, _, _) on = omega (arith, room on)

-- Any fuel from the number of entries on gives the whole chain.
chain_same :
    (s : TraceCache) (b f : ℕ)
    → IsValid s
    → s.initialized ≡ true
    → s.next_slot ≤ f
    → chain s.slots f (s.buckets b) ≡ bucket_chain s b
unfolding IsValid
chain_same s b f v on h =
    let (room, links, heads) = v in
    let fits = enough_slots s v on in
    chain-enough s.slots s.next_slot f (s.buckets b) links (heads b) h
    ∙ sym (
        chain-enough s.slots s.next_slot (slot_count s) (s.buckets b) links (heads b)
          (omega (arith, fits)))

-- In a valid cache that is initialised, a loop over a chain ends after at most as many entries as
-- the region has slots: more rounds visit the same entries.
pub bucket_chain-IsWhole :
    (s : TraceCache) (b f : ℕ)
    → IsValid s
    → s.initialized ≡ true
    → slot_count s ≤ f
    → chain s.slots f (s.buckets b) ≡ bucket_chain s b
bucket_chain-IsWhole s b f v on h =
    let fits = enough_slots s v on in chain_same s b f v on (omega (arith, fits, h))

module _ (s : TraceCache) (rip context : ℕ) where
  abbrev n : ℕ
  n = s.next_slot

  abbrev linked : TraceCache
  linked = link s n rip context

  linked_below : (k : ℕ) → k < n → linked.slots k ≡ s.slots k
  linked_below k lt = elim (Bool-cases (k == n)) [
    | inl e ↦ absurd (ground arith)
    | inr e ↦ rw e refl
  ]

  -- What a search finds after an entry is linked in: the entry, for its own key, and what it found
  -- before for any other.
  pub link-find_self : IsValid s → s.initialized ≡ true → find linked rip context ≡ some n
  unfolding find
  link-find_self v on =
      let f = slot_count s - 1 in
      let fits = enough_slots s v on in
      let one : slot_count s ≡ suc f = omega (arith, fits) in
      let head : linked.buckets (hash rip context) ≡ some n = ground arith in
      let hits : entry_hits (linked.slots n) rip context ≡ true = ground arith in
      ap (λ at. search linked.slots (slot_count s) at rip context) head
      ∙ ap (λ f. search linked.slots f (some n) rip context) one
      ∙ search-cons linked.slots f n rip context
      ∙ ap (λ b. if b then some n else search linked.slots f (linked.slots n).next rip context) hits

  search-linked :
      (f b rip' context' : ℕ)
      → IsValid s
      → search linked.slots f (s.buckets b) rip' context'
        ≡ search s.slots f (s.buckets b) rip' context'
  unfolding IsValid
  search-linked f b rip' context' (room, links, heads) =
      search-agree s.slots linked.slots n f (s.buckets b) rip' context' links (heads b)
        (λ k lt. ap (λ e. e.next) (linked_below k lt))
        (λ k lt. ap (λ e. entry_hits e rip' context') (linked_below k lt))

  pub link-find_other :
      (rip' context' : ℕ)
      → IsValid s
      → s.initialized ≡ true
      → (rip ≢ rip') ⊎ (context ≢ context')
      → find linked rip' context' ≡ find s rip' context'
  unfolding find
  link-find_other rip' context' v on other =
      let b = hash rip' context' in
      elim (Bool-cases (b == hash rip context)) [
        | inr e ↦
            let head : linked.buckets b ≡ s.buckets b = rw e refl in
            ap (λ at. search linked.slots (slot_count s) at rip' context') head
            ∙ search-linked (slot_count s) b rip' context' v
        | inl e ↦
            let f = slot_count s - 1 in
            let fits = enough_slots s v on in
            let one : slot_count s ≡ suc f = omega (arith, fits) in
            let head : linked.buckets b ≡ some n = rw e refl in
            let same : b ≡ hash rip context = (==_iff _ _).0 e in
            let link : (linked.slots n).next ≡ s.buckets b =
              (ground arith) ∙ ap s.buckets (sym same) in
            let misses : entry_hits (linked.slots n) rip' context' ≡ false = ground arith in
            ap (λ at. search linked.slots (slot_count s) at rip' context') head
            ∙ ap (λ f. search linked.slots f (some n) rip' context') one
            ∙ search-cons linked.slots f n rip' context'
            ∙ ap
                (λ h.
                  if h then some n else search linked.slots f (linked.slots n).next rip' context')
                misses
            ∙ ap (λ at. search linked.slots f at rip' context') link
            ∙ search-linked f b rip' context' v
            ∙ ap (first_hit s.slots rip' context') (chain_same s b f v on (omega (arith, fits)))
      ]
