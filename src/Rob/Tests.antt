-- ===== src/Rob/Tests.antt =====
-- Runs of the distributor, and its theorems at concrete states.
use bemi_bios.Prelude.{◌≤◌, ◌<◌, ◌≡◌, ◌≢◌, ◌⊎◌, refl, arith, Option, none, some, true}
use bemi_bios.Efi.{success, not_ready, invalid_parameter, out_of_resources}
use bemi_bios.Rob.{
  RobDistributor, AllocateReply, allocated, allocate_entry, retire_entry, fresh_distributor,
  push_entry, mark_retired, free_head, drain, retire_bank, distributor_init, get_active_count,
  sum_counts, rob_entries_per_bank, bank_has_room,
}
use bemi_bios.BankSearch.{find_bank, rob_banks}
use bemi_bios.BankSearch.Cyclic.{FirstRoom}
use bemi_bios.Rob.Valid.{
  IsValid, fresh-IsValid, distributor_init-IsValid, Outcome, allocate_entry_lem, after,
  after-Allocates,
}
use bemi_bios.Rob.Retire.{Retires, place_of, retire_entry_lem}

abbrev then_some : Option AllocateReply → Option RobDistributor
then_some none = none
then_some (some r) = r.2

-- Two allocations go to banks 0 and 1; the older is retired and leaves.
abbrev two_entries : Option RobDistributor
two_entries =
    then_some (allocate_entry (then_some (allocate_entry (some fresh_distributor) 100 0 3)) 200 0 1)

two_entries_active :
    (get_active_count two_entries ≡ 2)
    × (get_active_count (retire_entry two_entries 0 0).1 ≡ 1)
    × ((retire_entry two_entries 0 1).0 ≡ not_ready)
    × ((retire_entry two_entries 7 0).0 ≡ invalid_parameter)
unfolding allocate_entry find_bank push_entry get_active_count sum_counts retire_entry retire_bank
    drain mark_retired free_head
two_entries_active = (refl, refl, refl, refl)

allocate_entry_lem_example :
    Outcome fresh-IsValid 4096 7 3 (allocate_entry (some fresh_distributor) 4096 7 3)
allocate_entry_lem_example = allocate_entry_lem fresh-IsValid 4096 7 3

first_bank : FirstRoom (bank_has_room fresh_distributor.banks) 0 0
first_bank = record {
  skipped = 0;
  few = omega arith;
  place = refl;
  passes = refl;
  before = λ i hi. elim hi [ ];
}

-- One entry, in slot 0 of bank 0.
abbrev one_entry : RobDistributor
one_entry = after fresh-IsValid 4096 7 3 0

one_entry-IsValid : IsValid one_entry
one_entry-IsValid = (after-Allocates fresh-IsValid 4096 7 3 0 first_bank).valid

one_entry_allocated : ((one_entry.banks 0).slots 0).state ≡ allocated
unfolding push_entry
one_entry_allocated = refl

retire_entry_lem_example :
    (((rob_banks ≤ 0) ⊎ (rob_entries_per_bank ≤ 0))
      × (retire_entry (some one_entry) 0 0 ≡ (invalid_parameter, some one_entry)))
    ⊎ ((((one_entry.banks 0).slots 0).state ≢ allocated)
        × (retire_entry (some one_entry) 0 0 ≡ (not_ready, some one_entry)))
    ⊎ ((rob' : RobDistributor) × (retire_entry (some one_entry) 0 0 ≡ (success, some rob'))
        × (place_of (one_entry.banks 0) 0 < (one_entry.banks 0).count)
        × Retires one_entry 0 (place_of (one_entry.banks 0) 0) rob')
retire_entry_lem_example = retire_entry_lem one_entry-IsValid 0 0

distributor_init-IsValid_example :
    (distributor_init true ≡ (out_of_resources, none))
    ⊎ ((rob : RobDistributor) × (distributor_init true ≡ (success, some rob))
        × IsValid rob
        × (get_active_count (some rob) ≡ 0))
distributor_init-IsValid_example = distributor_init-IsValid true
