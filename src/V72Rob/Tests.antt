-- ===== src/V72Rob/Tests.antt =====
-- Runs of the v7.2 buffer, and its theorems at concrete states.
use bemi_bios.Prelude.{◌≤◌, ◌≡◌, ◌⊎◌, inl, refl, true, none, some, arith}
use bemi_bios.Efi.{success, invalid_parameter}
use bemi_bios.BankSearch.{find_bank}
use bemi_bios.V72Rob.{
  V72State, Call, returns, null_deref, push_tag, record_tag, zero_ring, zero_meta,
  v72_rob_main_entries, init_ext, init_meta, distributor_init, allocate_entry,
}
use bemi_bios.V72Rob.Ring.{IsValid, InBounds}
use bemi_bios.V72Rob.Init.{distributor_init-IsValid_of_success}
use bemi_bios.V72Rob.Valid.{Outcome, allocate_entry-Outcome}
use bemi_bios.V72Rob.Retire.{StatusReply, retire_entry}
use bemi_bios.V72Rob.Retire.Valid.{Ends, retire_entry-Ends}

-- Before initialisation every global is zero.
abbrev at_reset : V72State
at_reset = record {
  main_rob = none;
  ext_banks = λ _. none;
  meta = none;
  meta_head = 0;
  meta_tail = 0;
  meta_count = 0;
  main_count = 0;
  main_head = 0;
  ext_counts = λ _. 0;
  next_ext_bank = 0;
  total_allocations = 0;
  total_retirements = 0;
  total_stalls = 0;
  cycle_counter = 0;
}

abbrev ready : V72State
ready = (distributor_init true (λ _. true) true at_reset).1

ready-IsValid : IsValid ready
ready-IsValid =
    (distributor_init-IsValid_of_success true (λ _. true) true at_reset
      (unfold distributor_init init_ext init_meta in refl)).2

allocate_entry-Outcome_example : Outcome ready 4096 (allocate_entry ready 4096 7 3)
allocate_entry-Outcome_example = allocate_entry-Outcome ready-IsValid 4096 7 3

retire_entry-Ends_example :
    ((v72_rob_main_entries ≤ 0) × (retire_entry ready 0 ≡ returns (invalid_parameter, ready)))
    ⊎ ((reply : StatusReply) × (retire_entry ready 0 ≡ returns reply)
        × InBounds (ready-IsValid.meta_at.0 0)
        × Ends ready reply)
retire_entry-Ends_example = retire_entry-Ends ready-IsValid 0

-- The main ring is full with 1568 entries.
abbrev full_main : V72State
full_main = record at_reset {
  main_rob = some (record zero_ring { count = 1568 });
  ext_banks = λ _. some zero_ring;
  meta = some (λ tag. record (zero_meta tag) { bank_id = 0xFFFFFFFF; slot_in_bank = tag });
  main_count = 1568;
}

full_main-IsValid : IsValid full_main
full_main-IsValid = record {
  main = record {
    ring = record zero_ring { count = 1568 };
    points = refl;
    shape = omega arith;
    agrees = refl;
  };
  ext = λ i h. record { ring = zero_ring; points = refl; shape = omega arith; agrees = refl };
  meta_at = (_, refl, λ tag h. inl (refl, h));
  tail_in = omega arith;
  next_in = omega arith;
}

-- What the next allocation leaves: tag 0 again, in extended bank 0.
abbrev spilled : V72State
spilled = elim (allocate_entry full_main 8192 9 1) [
  | returns (_, _, t) ↦ t
  | null_deref ↦ full_main
  | Call.out_of_fuel ↦ full_main
]

spill_ends : allocate_entry full_main 8192 9 1 ≡ returns (success, some 0, spilled)
unfolding allocate_entry find_bank record_tag push_tag
spill_ends = refl
