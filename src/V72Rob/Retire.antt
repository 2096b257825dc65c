-- ===== src/V72Rob/Retire.antt =====
-- V72RobRetireEntry.
pub mod Valid
use bemi_bios.Prelude.{
  ℕ, zero, suc, ◌%◌, Bool, true, false, ◌&&◌, Option, none, some, ltb, leb, ◌==◌, if◌then◌else◌,
  Array, update, inc64, dec32, add32,
}
use bemi_bios.Efi.{EfiStatus, success, not_ready, invalid_parameter}
use bemi_bios.BankSearch.{rob_banks}
use bemi_bios.Rob.{EntryState, free, retired, is_retired}
use bemi_bios.V72Rob.{
  CompressedRing, CompressedEntry, Metadata, V72State, Call, returns, null_deref,
  v72_rob_main_entries, v72_rob_ext_entries, main_bank_id,
}

-- Entries[slot].State = ROB_ENTRY_RETIRED
pub mark_retired : CompressedRing → ℕ → CompressedRing
mark_retired r slot = record r {
  entries = update r.entries slot (record (r.entries slot) { state = retired });
}

-- The bodies of the two while loops of V72RobRetireEntry, which differ in the size.
pub free_head : ℕ → CompressedRing → CompressedRing
free_head size r = record {
  entries = update r.entries r.head (record (r.entries r.head) { state = free });
  head = add32 r.head 1 % size;
  tail = r.tail;
  count = dec32 r.count;
}

-- The while loop, with the second counter that it decrements beside the ring's own. Each round
-- takes one off the count, so `r.count` rounds are enough.
pub drain : ℕ → ℕ → CompressedRing → ℕ → CompressedRing × ℕ
drain size zero r counter = (r, counter)
drain size (suc fuel) r counter = elim (ltb 0 r.count && is_retired (r.entries r.head).state) [
  | true ↦ drain size fuel (free_head size r) (dec32 counter)
  | false ↦ (r, counter)
]

abbrev pub StatusReply : Type 0
StatusReply = EfiStatus × V72State

abbrev retire_main : V72State → CompressedRing → ℕ → StatusReply
retire_main s main slot =
    if main.count == 0
    then (not_ready, s)
    else (let (r, counter) =
          drain v72_rob_main_entries main.count (mark_retired main slot) s.main_count in
        (
          success,
          record s {
            main_rob = some r;
            main_count = counter;
            total_retirements = inc64 s.total_retirements;
          },
        ))

abbrev retire_ext : V72State → ℕ → ℕ → Option CompressedRing → StatusReply
retire_ext s eb slot none = (not_ready, s)
retire_ext s eb slot (some ring) =
    if ring.count == 0
    then (not_ready, s)
    else (let (r, counter) =
          drain v72_rob_ext_entries ring.count (mark_retired ring slot) (s.ext_counts eb) in
        (
          success,
          record s {
            ext_banks = update s.ext_banks eb (some r);
            ext_counts = update s.ext_counts eb counter;
            total_retirements = inc64 s.total_retirements;
          },
        ))

abbrev retire_in : V72State → ℕ → Option CompressedRing → Option (Array Metadata) → Call StatusReply
retire_in s tag none meta = returns (not_ready, s)
retire_in s tag (some main) none =
    if leb v72_rob_main_entries tag then returns (invalid_parameter, s) else null_deref
retire_in s tag (some main) (some meta) =
    let m = meta tag in
    if leb v72_rob_main_entries tag
    then returns (invalid_parameter, s)
    else (if m.bank_id == main_bank_id
        then returns (retire_main s main m.slot_in_bank)
        else (if leb rob_banks m.bank_id
            then returns (invalid_parameter, s)
            else returns (retire_ext s m.bank_id m.slot_in_bank (s.ext_banks m.bank_id))))

pub retire_entry : V72State → ℕ → Call StatusReply
retire_entry s tag = retire_in s tag s.main_rob s.meta
