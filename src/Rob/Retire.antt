-- ===== src/Rob/Retire.antt =====
-- RobRetireEntry on a valid distributor, on every branch.
use bemi_bios.Prelude.{
  ℕ, ◌+◌, ◌-◌, ◌%◌, ◌≤◌, ◌<◌, ◌≡◌, ◌≢◌, refl, update, ◌||◌, leb, ◌⊎◌, inl, inr, Bool-cases, arith,
  inc64, some,
}
use bemi_bios.Efi.{success, not_ready, invalid_parameter}
use bemi_bios.Rob.{
  allocated, RobBank, RobDistributor, rob_entries_per_bank, retire_entry, retire_bank, is_allocated,
}
use bemi_bios.BankSearch.{rob_banks}
use bemi_bios.Rob.Bank.{slot_at, retire_bank-IsBank}
use bemi_bios.Rob.Valid.{IsValid}
use bemi_bios.Rob.Order.{contents, contents-retire_bank, drop_retired, mark_nth}

-- What a successful retirement has done: the k-th oldest entry of the bank is marked, and the
-- retired front leaves.
pub record Retires (rob : RobDistributor) (bank k : ℕ) (rob' : RobDistributor) : Type 0 where
  pub removed :
      contents (rob'.banks bank)
      ≡ drop_retired (mark_nth k rob.cycle_counter (contents (rob.banks bank)))
  pub others : (c : ℕ) → c ≢ bank → rob'.banks c ≡ rob.banks c
  pub counted : rob'.total_retirements ≡ inc64 rob.total_retirements
  pub valid : IsValid rob'

-- The place in the queue of a slot of the ring.
abbrev pub place_of : RobBank → ℕ → ℕ
place_of bp slot = (slot + rob_entries_per_bank - bp.head) % rob_entries_per_bank

module _ {rob : RobDistributor} (v : IsValid rob) (bank slot : ℕ) where
  retired_state : RobDistributor
  retired_state = record rob {
    banks = update rob.banks bank (retire_bank (rob.banks bank) slot rob.cycle_counter);
    total_retirements = inc64 rob.total_retirements;
  }

  retired-Retires :
      bank < rob_banks
      → slot < rob_entries_per_bank
      → ((rob.banks bank).slots slot).state ≡ allocated
      → (place_of (rob.banks bank) slot < (rob.banks bank).count)
        × Retires rob bank (place_of (rob.banks bank) slot) retired_state
  unfolding retired_state
  retired-Retires hb hs a =
      let bp = rob.banks bank in
      let w = v.each bank hb in
      let k = place_of bp slot in
      let e : slot_at bp k ≡ slot = omega (arith, w.ring.head_in) in
      let inside : k < bp.count = ground (arith, e, w.ring.dead k) in
      let kept = retire_bank-IsBank bp slot rob.cycle_counter w a in
      let queue = contents-retire_bank bp k rob.cycle_counter w.ring inside (rw e a) in
      (
        inside,
        record {
          removed = ground (arith, queue, e);
          others = λ c h. ground arith;
          counted = refl;
          valid = record { next_in = v.next_in; each = λ c hc. ground (arith, v.each c, kept) };
        },
      )

  -- RobRetireEntry on a valid distributor, on every branch: an index out of range and a slot that is
  -- not allocated are refused with nothing changed; otherwise exactly that entry is marked, the
  -- retired front of its bank is freed, and the distributor stays valid.
  pub retire_entry_lem :
      (((rob_banks ≤ bank) ⊎ (rob_entries_per_bank ≤ slot))
        × (retire_entry (some rob) bank slot ≡ (invalid_parameter, some rob)))
      ⊎ ((((rob.banks bank).slots slot).state ≢ allocated)
          × (retire_entry (some rob) bank slot ≡ (not_ready, some rob)))
      ⊎ ((rob' : RobDistributor) × (retire_entry (some rob) bank slot ≡ (success, some rob'))
          × (place_of (rob.banks bank) slot < (rob.banks bank).count)
          × Retires rob bank (place_of (rob.banks bank) slot) rob')
  unfolding retire_entry
  retire_entry_lem = elim (Bool-cases (leb rob_banks bank || leb rob_entries_per_bank slot)) [
    | inl bad ↦ inl (ground arith, ground arith)
    | inr ok ↦ elim (Bool-cases (is_allocated ((rob.banks bank).slots slot).state)) [
      | inr idle ↦ inr (inl (ground arith, ground arith))
      | inl busy ↦
          let (inside, done) = retired-Retires (ground arith) (ground arith) (ground arith) in
          inr (inr (retired_state, unfold retired_state in ground arith, inside, done))
    ]
  ]
