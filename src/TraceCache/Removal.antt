-- ===== src/TraceCache/Removal.antt =====
-- Invalidation in the trace cache.
use bemi_bios.Prelude.{
  ℕ, zero, suc, ◌+◌, ◌-◌, ◌/◌, ◌≤◌, ◌<◌, ◌≡◌, ◌≢◌, ◌⊎◌, inl, inr, refl, sym, ap, subst, ◌∙◌, Bool,
  true, false, not, none, List, [], ◌∷◌, ◌==◌, ◌&&◌, if◌then◌else◌, Array, update, arith,
  Bool-cases, ==_iff,
}
use bemi_bios.TraceCache.{
  TraceEntry, TraceCache, hash_buckets, entry_bytes, entry_hits, chain, first_hit, slot_count,
  bucket_chain, hash, find, clear_valid, invalidate_chain, invalidate_buckets, invalidate,
}
use bemi_bios.TraceCache.Chains.{chain-links}
use bemi_bios.TraceCache.Valid.{IsValid, SameLinks, invalidate_chain-next, invalidate-SameLinks}
use bemi_bios.TraceCache.Contents.{find-agree}

-- An entry that no search for the address finds.
abbrev dead : ℕ → TraceEntry → Bool
dead rip e = not (e.valid && e.rip == rip)

with_cleared : ℕ → ℕ → Array TraceEntry → Array TraceEntry
with_cleared rip k slots =
    if (slots k).valid && (slots k).rip == rip
    then update slots k (clear_valid (slots k))
    else slots

with_cleared-dead :
    (rip k j : ℕ) (slots : Array TraceEntry)
    → (dead rip (slots j) ≡ true) ⊎ (j ≡ k)
    → dead rip (with_cleared rip k slots j) ≡ true
unfolding with_cleared
with_cleared-dead rip k j slots h = ground arith

invalidate_chain-dead :
    (rip j : ℕ) (ks : List ℕ) (slots : Array TraceEntry)
    → dead rip (slots j) ≡ true
    → dead rip (invalidate_chain rip ks slots j) ≡ true
unfolding invalidate_chain with_cleared
invalidate_chain-dead rip j [] slots h = h
invalidate_chain-dead rip j (k ∷ ks) slots h =
    invalidate_chain-dead rip j ks (with_cleared rip k slots)
      (with_cleared-dead rip k j slots (inl h))

-- All entries of a list of slots.
AllDead : ℕ → Array TraceEntry → List ℕ → Type 0
AllDead rip slots [] = Unit {0}
AllDead rip slots (k ∷ ks) = (dead rip (slots k) ≡ true) × AllDead rip slots ks

AllDead-mono :
    (rip : ℕ) (slots slots' : Array TraceEntry) (ks : List ℕ)
    → ((j : ℕ) → dead rip (slots j) ≡ true → dead rip (slots' j) ≡ true)
    → AllDead rip slots ks
    → AllDead rip slots' ks
unfolding AllDead
AllDead-mono rip slots slots' [] h d = tt
AllDead-mono rip slots slots' (k ∷ ks) h (d, ds) = (h k d, AllDead-mono rip slots slots' ks h ds)

invalidate_chain-AllDead :
    (rip : ℕ) (ks : List ℕ) (slots : Array TraceEntry)
    → AllDead rip (invalidate_chain rip ks slots) ks
unfolding invalidate_chain AllDead with_cleared
invalidate_chain-AllDead rip [] slots = tt
invalidate_chain-AllDead rip (k ∷ ks) slots = (
  invalidate_chain-dead rip k ks (with_cleared rip k slots)
      (with_cleared-dead rip k k slots (inr refl)),
  invalidate_chain-AllDead rip ks (with_cleared rip k slots),
)

first_hit-AllDead :
    (rip context : ℕ) (slots : Array TraceEntry) (ks : List ℕ)
    → AllDead rip slots ks
    → first_hit slots rip context ks ≡ none
unfolding first_hit AllDead
first_hit-AllDead rip context slots [] d = refl
first_hit-AllDead rip context slots (k ∷ ks) (d, ds) =
    let misses : entry_hits (slots k) rip context ≡ false = ground arith in
    rw misses (first_hit-AllDead rip context slots ks ds)

invalidate_buckets-dead :
    (rip j n : ℕ) (s : TraceCache)
    → dead rip (s.slots j) ≡ true
    → dead rip ((invalidate_buckets rip s n).slots j) ≡ true
unfolding invalidate_buckets
invalidate_buckets-dead rip j zero s h = h
invalidate_buckets-dead rip j (suc n) s h =
    let ks = bucket_chain s (hash_buckets - suc n) in
    invalidate_buckets-dead rip j n (record s { slots = invalidate_chain rip ks s.slots })
      (invalidate_chain-dead rip j ks s.slots h)

-- The loop over the last n buckets clears all their chains.
invalidate_buckets-AllDead :
    (rip b n : ℕ) (s : TraceCache)
    → b < hash_buckets
    → hash_buckets ≤ b + n
    → AllDead rip (invalidate_buckets rip s n).slots (bucket_chain s b)
unfolding invalidate_buckets
invalidate_buckets-AllDead rip b zero s lt le = absurd (omega arith)
invalidate_buckets-AllDead rip b (suc n) s lt le =
    let ks = bucket_chain s (hash_buckets - suc n) in
    let s' : TraceCache = record s { slots = invalidate_chain rip ks s.slots } in
    let whole = (invalidate_buckets rip s' n).slots in
    elim (Bool-cases (b == hash_buckets - suc n)) [
      | inl e ↦
          subst (λ i. AllDead rip whole (bucket_chain s i)) (sym ((==_iff _ _).0 e))
            (AllDead-mono rip s'.slots whole ks (λ j. invalidate_buckets-dead rip j n s')
              (invalidate_chain-AllDead rip ks s.slots))
      | inr e ↦
          subst (AllDead rip whole)
            (chain-links s.slots s'.slots (slot_count s) (s.buckets b)
              (λ k. invalidate_chain-next rip ks s.slots k))
            (invalidate_buckets-AllDead rip b n s' lt (ground arith))
    ]

invalidate_chain-other :
    (rip rip' context k : ℕ) (ks : List ℕ) (slots : Array TraceEntry)
    → rip ≢ rip'
    → entry_hits (invalidate_chain rip ks slots k) rip' context ≡ entry_hits (slots k) rip' context
unfolding invalidate_chain with_cleared
invalidate_chain-other rip rip' context k [] slots ne = refl
invalidate_chain-other rip rip' context k (j ∷ ks) slots ne =
    let here : entry_hits (with_cleared rip j slots k) rip' context
        ≡ entry_hits (slots k) rip' context =
      ground arith in
    invalidate_chain-other rip rip' context k ks (with_cleared rip j slots) ne ∙ here

invalidate_buckets-other :
    (rip rip' context k n : ℕ) (s : TraceCache)
    → rip ≢ rip'
    → entry_hits ((invalidate_buckets rip s n).slots k) rip' context
      ≡ entry_hits (s.slots k) rip' context
unfolding invalidate_buckets
invalidate_buckets-other rip rip' context k zero s ne = refl
invalidate_buckets-other rip rip' context k (suc n) s ne =
    let ks = bucket_chain s (hash_buckets - suc n) in
    invalidate_buckets-other rip rip' context k n
      (record s { slots = invalidate_chain rip ks s.slots }) ne
    ∙ invalidate_chain-other rip rip' context k ks s.slots ne

hash_bound : (rip context : ℕ) → hash rip context < hash_buckets
unfolding hash
hash_bound rip context = omega arith

find_removed : (s : TraceCache) (rip context : ℕ) → find (invalidate s rip) rip context ≡ none
unfolding find invalidate SameLinks
find_removed s rip context =
    let s' = invalidate s rip in
    let b = hash rip context in
    let (size, _, _, buckets, links) = invalidate-SameLinks s rip in
    let chains : bucket_chain s' b ≡ bucket_chain s b =
      ap (λ z. chain s'.slots (z / entry_bytes) (s'.buckets b)) size
      ∙ ap (λ h. chain s'.slots (slot_count s) (h b)) buckets
      ∙ chain-links s.slots s'.slots (slot_count s) (s.buckets b) links in
    ap (first_hit s'.slots rip context) chains
    ∙ first_hit-AllDead rip context s'.slots (bucket_chain s b)
        (invalidate_buckets-AllDead rip b hash_buckets s (hash_bound rip context) (omega arith))

-- Invalidating an address in a valid cache removes it for every context, and what a search for
-- another address finds stays as it was.
pub find-invalidate :
    (s : TraceCache) (rip rip' context : ℕ)
    → IsValid s
    → find (invalidate s rip) rip' context ≡ (if rip' == rip then none else find s rip' context)
unfolding find invalidate SameLinks
find-invalidate s rip rip' context v = elim (Bool-cases (rip' == rip)) [
  | inl e ↦ rw (e, (==_iff _ _).0 e) gone
  | inr e ↦ rw e (
      find-agree s (invalidate s rip) rip' context v same
        (λ k. invalidate_buckets-other rip rip' context k hash_buckets s (λ h. ground arith)))
]
  where
    same : SameLinks s (invalidate s rip)
    same = invalidate-SameLinks s rip

    gone : find (invalidate s rip) rip context ≡ none
    gone = find_removed s rip context
