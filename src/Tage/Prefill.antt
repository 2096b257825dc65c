-- ===== src/Tage/Prefill.antt =====
-- What a prefill of kernel branches leaves in the branch target buffer.
use bemi_bios.Prelude.{
  ℕ, zero, suc, ◌+◌, ◌/◌, ◌^◌, ◌≤◌, ◌<◌, ◌≡◌, ◌≢◌, inl, inr, refl, ◌∙◌, true, ltb, ◌==◌,
  if◌then◌else◌, Array, arith, Bool-cases, Option-cases,
}
use bemi_bios.Tage.{
  tage_table_count, TageEntry, BtbEntry, Tage, tage_tag, set_entry, find_table, btb_index, btb_hits,
  predict, fill_tables, fill_branch, prefill_from, prefill_kernel, branch_rip,
}

fill_tables-btb :
    (rounds t : ℕ) (s : Tage) (rip target : ℕ) → (fill_tables s rip target rounds t).btb ≡ s.btb
unfolding fill_tables
fill_tables-btb zero t s rip target = refl
fill_tables-btb (suc rounds) t s rip target =
    let e : TageEntry = record {
      tag = tage_tag rip t;
      useful = 2;
      taken = ltb rip target;
      valid = true;
    } in
    fill_tables-btb rounds (t + 1) (set_entry s rip t e) rip target

abbrev row : ℕ → ℕ → BtbEntry
row rip target = record {
  target_rip = rip;
  target_address = target;
  tag = rip / 2 ^ 12;
  valid = true;
}

fill_branch-btb :
    (s : Tage) (rip target i : ℕ)
    → (fill_branch s rip target).btb i ≡ (if i == btb_index rip then row rip target else s.btb i)
unfolding fill_branch
fill_branch-btb s rip target i = ground (arith, fill_tables-btb tage_table_count 0 s rip target)

-- Branches of one run of 512 have different rows in the branch target buffer.
branch_rip-apart :
    (base i j : ℕ)
    → i < j
    → j < i + 512
    → j < 2 ^ 28
    → btb_index (branch_rip base i) ≢ btb_index (branch_rip base j)
branch_rip-apart base i j lt near small e = omega arith

prefill_from-btb :
    (rounds i base : ℕ) (targets : Array ℕ) (s : Tage)
    → i + rounds ≤ 512
    → ((k : ℕ)
        → i ≤ k
        → k < i + rounds
        → (prefill_from rounds i base targets s).btb (btb_index (branch_rip base k))
          ≡ row (branch_rip base k) (targets k))
      × ((k : ℕ)
          → k < i
          → (prefill_from rounds i base targets s).btb (btb_index (branch_rip base k))
            ≡ s.btb (btb_index (branch_rip base k)))
unfolding prefill_from
prefill_from-btb zero i base targets s h = (λ k lo hi. absurd (omega arith), λ k lt. refl)
prefill_from-btb (suc rounds) i base targets s h =
    let s' = fill_branch s (branch_rip base i) (targets i) in
    let (inside, before) = prefill_from-btb rounds (i + 1) base targets s' (omega arith) in
    let at = fill_branch-btb s (branch_rip base i) (targets i) in
    (
      λ k lo hi. elim (Bool-cases (k == i)) [
        | inl e ↦ ground (arith, before k, at (btb_index (branch_rip base k)))
        | inr e ↦ inside k (ground arith) (omega arith)
      ],
      λ k lt.
          let apart = branch_rip-apart base k i lt (omega arith) (omega arith) in
          before k (omega arith) ∙ ground (arith, at (btb_index (branch_rip base k)), apart),
    )

-- After a prefill of at most 512 branches, the predicted target of each of them is the one given:
-- none has taken the row of another.
pub predict-prefill_kernel :
    (s : Tage) (base count : ℕ) (targets : Array ℕ)
    → count ≤ 512
    → (k : ℕ) → k < count
    → (predict (prefill_kernel s base targets count) (branch_rip base k)).1 ≡ targets k
unfolding predict btb_hits
predict-prefill_kernel s base count targets h k lt =
    let (inside, _) = prefill_from-btb count 0 base targets s (omega arith) in
    let there = inside k (omega arith) (omega arith) in
    let after = prefill_kernel s base targets count in
    elim (Option-cases (find_table after (branch_rip base k) tage_table_count)) [
      | inl e ↦ rw (predict, e, there) (ground arith)
      | inr (t, e) ↦ rw (predict, e, there) (ground arith)
    ]
