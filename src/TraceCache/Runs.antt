-- ===== src/TraceCache/Runs.antt =====
-- Runs of the trace cache's operations from TraceCacheInit.
use bemi_bios.Prelude.{
  ℕ, zero, suc, ◌+◌, ◌*◌, ◌/◌, ◌%◌, ◌^◌, inl, inr, refl, sym, subst, Bool, Option, none, some, List,
  [], ◌∷◌, leb, ltb, ◌==◌, if◌then◌else◌, Array, arith, Bool-cases, not_ltb→le, inc32,
}
use bemi_bios.Efi.{EfiStatus, success, not_ready}
use bemi_bios.TraceCache.{
  TraceEntry, TraceCache, default_size, bucket_bytes, header_bytes, cleared, start, init, configure,
  v71_configure, v72_init, lookup, insert, pin_entry, unpin_entry, invalidate, warm_blocks,
  warm_kernel, mark_hot, mark_found, prefill_blocks, dbo_prefill,
}
use bemi_bios.TraceCache.Chains.{Below, Descends}
use bemi_bios.TraceCache.Valid.{
  IsValid, SameLinks, SameLinks-refl, IsValid-links, set_slot-SameLinks, lookup-SameLinks,
  change_pins-SameLinks, invalidate-SameLinks,
}
use bemi_bios.TraceCache.Inserts.{Leaves, insert-IsValid}

mark_found-SameLinks : (o : Option ℕ) (s : TraceCache) → SameLinks s (mark_found o s)
unfolding mark_found
mark_found-SameLinks none s = SameLinks-refl s
mark_found-SameLinks (some k) s = set_slot-SameLinks s k (mark_hot (s.slots k)) refl

-- A step after a step.
pub after {ℓ} :
    {A : Type ℓ} (P : A → Type 0) (f : A → Option TraceCache) (r : Option A)
    → ((a : A) → P a → Leaves IsValid (f a))
    → Leaves P r
    → Leaves IsValid (elim r as (λ _. Option TraceCache) [ none ↦ none | some a ↦ f a ])
unfolding Leaves
after P f none h v = tt
after P f (some a) h v = h a v

pub warm_blocks-IsValid :
    (n : ℕ) (s : TraceCache) (rip : ℕ) → IsValid s → Leaves IsValid (warm_blocks s rip n)
unfolding warm_blocks Leaves
warm_blocks-IsValid zero s rip v = v
warm_blocks-IsValid (suc n) s rip v =
    after (λ a. IsValid a.1) (λ (_, s'). warm_blocks s' ((rip + 64) % 2 ^ 64) n) (insert s rip 0)
      (λ a v'. warm_blocks-IsValid n a.1 ((rip + 64) % 2 ^ 64) v') (insert-IsValid s rip 0 v)

pub prefill_blocks-IsValid :
    (n : ℕ) (s : TraceCache) (base i : ℕ) → IsValid s → Leaves IsValid (prefill_blocks s base n i)
unfolding prefill_blocks Leaves
prefill_blocks-IsValid zero s base i v = v
prefill_blocks-IsValid (suc n) s base i v =
    let rip = (base + i * 64 % 2 ^ 32) % 2 ^ 64 in
    after (λ a. IsValid a.1) (λ (hit, s'). prefill_blocks (mark_found hit s') base n (i + 1))
      (insert s rip 0)
      (λ (hit, s') v'.
        prefill_blocks-IsValid n (mark_found hit s') base (i + 1)
          (IsValid-links s' (mark_found hit s') (mark_found-SameLinks hit s') v'))
      (insert-IsValid s rip 0 v)

dbo_prefill-IsValid :
    (s : TraceCache) (base count : ℕ) → IsValid s → Leaves IsValid (dbo_prefill s base count)
unfolding dbo_prefill Leaves
dbo_prefill-IsValid s base count v = elim (Bool-cases s.initialized) [
  | inl e ↦
      subst (λ b. Leaves IsValid (if b then filled else some s)) (sym e)
        (prefill_blocks-IsValid _ s base 0 v)
  | inr e ↦ subst (λ b. Leaves IsValid (if b then filled else some s)) (sym e) v
]
  where
    filled : Option TraceCache
    filled = prefill_blocks s base (if ltb 0 count then count else 64) 0

-- The operations of the file, as steps.
pub data Operation : Type 0 where
  look_up : ℕ → ℕ → Operation
  put_in : ℕ → ℕ → Operation
  pin : ℕ → ℕ → Operation
  unpin : ℕ → ℕ → Operation
  drop : ℕ → Operation
  set_v71 : Operation
  set_v72 : Operation
  warm : ℕ → ℕ → Operation
  prefill : ℕ → ℕ → Operation

abbrev pub forget_hit : Option (Option ℕ × TraceCache) → Option TraceCache
forget_hit none = none
forget_hit (some (_, s)) = some s

unfoldable pub step : TraceCache → Operation → Option TraceCache
step s (look_up rip context) = some (lookup s rip context).1
step s (put_in rip context) = forget_hit (insert s rip context)
step s (pin rip context) = some (pin_entry s rip context)
step s (unpin rip context) = some (unpin_entry s rip context)
step s (drop rip) = some (invalidate s rip)
step s set_v71 = some (v71_configure s).1
step s set_v72 = some (v72_init s).1
step s (warm base bytes) = warm_kernel s base bytes
step s (prefill base count) = dbo_prefill s base count

unfoldable pub run : TraceCache → List Operation → Option TraceCache
run s [] = some s
run s (op ∷ ops) = elim (step s op) [ none ↦ none | some s' ↦ run s' ops ]

configure-SameLinks : (depth rate : ℕ) (s : TraceCache) → SameLinks s (configure depth rate s).1
unfolding configure SameLinks
configure-SameLinks depth rate s = elim (Bool-cases s.initialized) [
  | inl e ↦ subst (λ b. SameLinks s (outcome b).1) (sym e) (SameLinks-refl s)
  | inr e ↦ subst (λ b. SameLinks s (outcome b).1) (sym e) (SameLinks-refl s)
]
  where
    outcome : Bool → EfiStatus × TraceCache
    outcome b =
        if b
        then (success, record s { lru_scan_depth = depth; target_hit_rate = rate })
        else (not_ready, s)

forget_hit-Leaves :
    (r : Option (Option ℕ × TraceCache))
    → Leaves (λ a. IsValid a.1) r
    → Leaves IsValid (forget_hit r)
unfolding Leaves
forget_hit-Leaves none h = tt
forget_hit-Leaves (some a) h = h

step-IsValid : (s : TraceCache) (op : Operation) → IsValid s → Leaves IsValid (step s op)
unfolding step Leaves warm_kernel
step-IsValid s (look_up rip context) v =
    IsValid-links s (lookup s rip context).1 (lookup-SameLinks s rip context) v
step-IsValid s (put_in rip context) v =
    forget_hit-Leaves (insert s rip context) (insert-IsValid s rip context v)
step-IsValid s (pin rip context) v =
    IsValid-links s (pin_entry s rip context) (change_pins-SameLinks inc32 s rip context) v
step-IsValid s (unpin rip context) v =
    IsValid-links s (unpin_entry s rip context) (change_pins-SameLinks _ s rip context) v
step-IsValid s (drop rip) v = IsValid-links s (invalidate s rip) (invalidate-SameLinks s rip) v
step-IsValid s set_v71 v = IsValid-links s (v71_configure s).1 (configure-SameLinks 128 80 s) v
step-IsValid s set_v72 v = IsValid-links s (v72_init s).1 (configure-SameLinks 256 92 s) v
step-IsValid s (warm base bytes) v = warm_blocks-IsValid ((bytes + 63) / 64) s (base % 2 ^ 64) v
step-IsValid s (prefill base count) v = dbo_prefill-IsValid s base count v

run_from : (ops : List Operation) (s : TraceCache) → IsValid s → Leaves IsValid (run s ops)
unfolding run Leaves
run_from [] s v = v
run_from (op ∷ ops) s v =
    after IsValid (λ s'. run s' ops) (step s op) (λ s' v'. run_from ops s' v') (step-IsValid s op v)

cleared-IsValid : (memory : Array TraceEntry) → IsValid (cleared memory)
unfolding IsValid Descends Below
cleared-IsValid memory = (λ on. ground arith, λ k lt. absurd (omega arith), λ b. tt)

start-IsValid :
    (memory : Array TraceEntry) (region : ℕ) → Leaves (λ r. IsValid r.1) (start memory region)
unfolding start Leaves IsValid Descends Below
start-IsValid memory region = elim (Bool-cases (leb region (bucket_bytes + 40))) [
  | inl e ↦ rw e (λ on. ground arith, λ k lt. absurd (omega arith), λ b. tt)
  | inr e ↦ elim (Bool-cases (ltb region (bucket_bytes + header_bytes))) [
    | inl f ↦ rw (e, f) tt
    | inr f ↦
        rw (e, f) (λ on. omega (arith, not_ltb→le _ _ f), λ k lt. absurd (omega arith), λ b. tt)
  ]
]

init-IsValid :
    (memory : Array TraceEntry) (base bytes : ℕ)
    → Leaves (λ r. IsValid r.1) (init memory base bytes)
unfolding init Leaves
init-IsValid memory base bytes = elim (Bool-cases (base == 0)) [
  | inl e ↦ rw e (cleared-IsValid memory)
  | inr e ↦ rw e (start-IsValid memory (if ltb bytes 4096 then default_size else bytes))
]

-- Whatever operations run after TraceCacheInit, and whatever the memory was, as long as no insertion
-- has run into the bucket table the entries in use end below it and every link leads to an earlier
-- entry, so that every loop over a chain ends. Regions of 0x80029 to 0x80037 bytes are left out.
pub run-IsValid :
    (memory : Array TraceEntry) (base bytes : ℕ) (ops : List Operation)
    → Leaves (λ r. Leaves IsValid (run r.1 ops)) (init memory base bytes)
unfolding Leaves
run-IsValid memory base bytes ops = all (init memory base bytes) (init-IsValid memory base bytes)
  where
    all :
        (r : Option (EfiStatus × TraceCache))
        → Leaves (λ r. IsValid r.1) r
        → Leaves (λ r. Leaves IsValid (run r.1 ops)) r
    all none h = tt
    all (some (status, s)) h = run_from ops s h
