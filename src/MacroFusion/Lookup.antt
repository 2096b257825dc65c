-- ===== src/MacroFusion/Lookup.antt =====
-- What a lookup finds after a fusion, and what the analysis of a region counts.
use bemi_bios.Prelude.{
  ℕ, zero, suc, ◌+◌, ◌-◌, ◌^◌, ◌≤◌, ◌<◌, ◌≡◌, ◌⊎◌, inl, inr, refl, ap, ◌∙◌, Bool, true, ◌&&◌, none,
  some, ltb, ◌==◌, if◌then◌else◌, Array, update, inc32, arith, Bool-cases, Option-cases, lt→ltb,
  ltb→lt,
}
use bemi_bios.MacroFusion.{
  FusedMacroOp, Fusion, Tracking, Limits, is_fusable, Offer, add_pair, new_op, add_op, try_fuse,
  count_patterns, dbo_analyze, find_op, lookup, Buffers, base_try_fuse, v71_try_fuse, base_limits,
}
use bemi_bios.MacroFusion.Buffer.{IsValid, try_fuse-done}

abbrev matches : ℕ → FusedMacroOp → Bool
matches rip op = op.rip == rip && op.fused

-- The search over one row more.
find_op-last :
    (ops : Array FusedMacroOp) (rip n i : ℕ)
    → find_op ops rip (suc n) i ≡ elim (find_op ops rip n i) [
      | some j ↦ some j
      | none ↦ if matches rip (ops (i + n)) then some (i + n) else none
    ]
unfolding find_op
find_op-last ops rip zero i = let here : i + 0 ≡ i = omega arith in rw here refl
find_op-last ops rip (suc n) i =
    let there : i + 1 + n ≡ i + suc n = omega arith in
    ground (arith, there, find_op-last ops rip n (i + 1))

find_op-new :
    (ops : Array FusedMacroOp) (rip n : ℕ)
    → find_op ops rip n 0 ≡ none
    → matches rip (ops n) ≡ true
    → find_op ops rip (suc n) 0 ≡ some n
find_op-new ops rip n e hit =
    let same : 0 + n ≡ n = omega arith in
    let last = find_op-last ops rip n 0 in last ∙ (rw (e, same, hit) refl)

find_op-old :
    (ops : Array FusedMacroOp) (rip n i : ℕ)
    → find_op ops rip n 0 ≡ some i
    → find_op ops rip (suc n) 0 ≡ some i
find_op-old ops rip n i e = find_op-last ops rip n 0 ∙ (rw e refl)

-- The search reads its rows only.
find_op-cong :
    (ops other : Array FusedMacroOp) (rip n i : ℕ)
    → ((j : ℕ) → i ≤ j → j < i + n → ops j ≡ other j)
    → find_op ops rip n i ≡ find_op other rip n i
unfolding find_op
find_op-cong ops other rip zero i same = refl
find_op-cong ops other rip (suc n) i same =
    let rest =
      find_op-cong ops other rip n (i + 1) (λ j lo hi. same j (omega arith) (omega arith)) in
    let here = same i (omega arith) (omega arith) in rw (rest, here) refl

lookup-some :
    (b : Buffers) (rip i : ℕ)
    → find_op b.base.ops rip b.base.op_count 0 ≡ some i
    → (lookup b rip).0 ≡ some (b.base.ops i)
unfolding lookup
lookup-some b rip i e = rw (lookup, e) refl

-- The state after a fusion that the buffer has room for.
fused_ops :
    (l : Limits) (s : Fusion) (o : Offer)
    → is_fusable o.opcode1 o.opcode2 o.extra ≡ true
    → s.op_count < l.max_ops
    → l.max_ops < 2 ^ 32
    → let t = (try_fuse l s o).1 in
      (t.op_count ≡ suc s.op_count)
      × (t.ops ≡ update s.ops s.op_count (new_op (s.ops s.op_count) o))
unfolding add_op add_pair
fused_ops l s o e room small = rw (try_fuse-done l s o e) (ground arith, ground arith)

-- After MacroOpFusionTryFuse on a fusable pair that the buffer has room for, a lookup of its first
-- instruction returns the new operation, whose target lies behind the second instruction, if no
-- earlier operation has that address; otherwise the earliest one is still returned. What
-- MacroOpFusionV71TryFuse fuses a lookup never sees: it finds what it found before, for any address.
pub lookup-try_fuse :
    (b : Buffers) (o : Offer)
    → is_fusable o.opcode1 o.opcode2 o.extra ≡ true
    → b.base.op_count < 512
    → let s = b.base in
      let found = (lookup (base_try_fuse b o).1 o.rip1).0 in
      (find_op s.ops o.rip1 s.op_count 0 ≡ none → found ≡ some (new_op (s.ops s.op_count) o))
      × ((i : ℕ)
          → i < s.op_count
          → find_op s.ops o.rip1 s.op_count 0 ≡ some i
          → found ≡ some (s.ops i))
      × ((other : Offer) (rip : ℕ) → (lookup (v71_try_fuse b other).1 rip).0 ≡ (lookup b rip).0)
unfolding base_try_fuse v71_try_fuse lookup
lookup-try_fuse b o e room =
    let s = b.base in
    let t = (try_fuse base_limits s o).1 in
    let after : Buffers = record b { base = t } in
    let (count, ops) = fused_ops base_limits s o e room (omega arith) in
    let placed : t.ops s.op_count ≡ new_op (s.ops s.op_count) o = rw ops (ground arith) in
    let before : find_op t.ops o.rip1 s.op_count 0 ≡ find_op s.ops o.rip1 s.op_count 0 =
      find_op-cong t.ops s.ops o.rip1 s.op_count 0 (λ j lo hi. rw ops (ground arith)) in
    (
      λ fresh.
          let found : find_op t.ops o.rip1 t.op_count 0 ≡ some s.op_count =
            rw count
              (find_op-new t.ops o.rip1 s.op_count (before ∙ fresh) (rw placed (ground arith))) in
          lookup-some after o.rip1 s.op_count found ∙ ap some placed,
      λ i lt old.
          let found : find_op t.ops o.rip1 t.op_count 0 ≡ some i =
            rw count (find_op-old t.ops o.rip1 s.op_count i (before ∙ old)) in
          lookup-some after o.rip1 i found ∙ ap some (rw ops (ground arith)),
      λ other rip. unseen rip b (v71_try_fuse b other).1 refl,
    )
  where
    unseen : (rip : ℕ) (b b' : Buffers) → b'.base ≡ b.base → (lookup b' rip).0 ≡ (lookup b rip).0
    unseen rip b b' same = elim (Option-cases (find_op b.base.ops rip b.base.op_count 0)) [
      | inl e ↦ rw (lookup, same, e) refl
      | inr (i, e) ↦ rw (lookup, same, e) (ap (λ s. some (s.ops i)) same)
    ]

abbrev pub min : ℕ → ℕ → ℕ
min a b = if ltb a b then a else b

count_patterns_lem :
    (left : ℕ) (s : Fusion) (i detected : ℕ)
    → ((j : ℕ) → j < s.op_count → (s.ops j).fused ≡ true)
    → ltb 0 s.pair_count ≡ true
    → detected ≤ i
    → s.op_count < 2 ^ 32
    → i < s.op_count
    → count_patterns s left i detected ≡ detected + min left (s.op_count - (i + 1))
unfolding count_patterns
count_patterns_lem zero s i detected fused some_pair small bound inside = ground arith
count_patterns_lem (suc left) s i detected fused some_pair small bound inside =
    elim (Bool-cases (ltb (i + 1) s.op_count)) [
      | inr e ↦ rw e (ground arith)
      | inl e ↦
          let next : inc32 detected ≡ detected + 1 = omega arith in
          let rest =
            count_patterns_lem left s (i + 1) (detected + 1) fused some_pair (omega arith) bound
              (ltb→lt (i + 1) s.op_count e) in
          rw (e, fused i inside, some_pair, next) (rest ∙ ground arith)
    ]

-- With at least one operation and one pair in valid buffers, the analysis of a region counts one
-- pattern for each operation but the last, up to the length of the region; it sets the detection
-- flag if it counts any, and never clears it.
pub dbo_analyze_lem :
    (l : Limits) (s : Fusion) (t : Tracking) (start instructions : ℕ)
    → IsValid l s
    → s.op_count < 2 ^ 32
    → 0 < s.op_count
    → 0 < s.pair_count
    → let t' = dbo_analyze s t start instructions in
      (t'.fused_ops ≡ min instructions (s.op_count - 1))
      × (t'.cache_hits ≡ s.successes)
      × ((t.dbo_patterns_detected ≡ true) ⊎ (0 < t'.fused_ops) → t'.dbo_patterns_detected ≡ true)
unfolding dbo_analyze
dbo_analyze_lem l s t start instructions (_, _, _, fused) bound some_op some_pair =
    let counted =
      count_patterns_lem instructions s 0 0 fused (lt→ltb 0 s.pair_count some_pair) (omega arith)
        bound some_op in
    (counted ∙ ground arith, refl, λ h. ground arith)
