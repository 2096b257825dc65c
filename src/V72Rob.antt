-- ===== src/V72Rob.antt =====
-- The v7.2 compressed reorder buffer of performance/rob/robdistributor.c: a main ring of 1568
-- two-byte entries, seven extended rings of 9362, and metadata indexed by the reorder tag.
pub mod Ring
pub mod Init
pub mod Retire
pub mod Valid
pub mod Tags
mod Tests
use bemi_bios.Prelude.{
  ℕ, zero, suc, ◌+◌, ◌*◌, ◌%◌, ◌^◌, Bool, true, false, ◌&&◌, Option, none, some, ltb, leb, ◌==◌,
  if◌then◌else◌, Array, update, inc64, dec32, add32,
}
use bemi_bios.Efi.{EfiStatus, success, not_ready, invalid_parameter, out_of_resources}
use bemi_bios.BankSearch.{rob_banks, BankSearch, found, all_full, unfinished, find_bank}
use bemi_bios.Rob.{EntryState, free, allocated}

abbrev pub v72_rob_main_entries : ℕ
v72_rob_main_entries = 1568

abbrev pub v72_rob_ext_entries : ℕ
v72_rob_ext_entries = 9362

abbrev pub v72_rob_ext_total : ℕ
v72_rob_ext_total = rob_banks * v72_rob_ext_entries

-- The bank id by which the metadata names the main ring: 0xFFFFFFFF.
abbrev pub main_bank_id : ℕ
main_bank_id = 0xFFFFFFFF

-- V72_ROB_ENTRY_COMPRESSED: 11, 3 and 2 bits.
pub record CompressedEntry : Type 0 where
  pub reorder_tag : ℕ
  pub ready_mask : ℕ
  pub state : EntryState

-- V72_MAIN_ROB and V72_EXT_ROB_BANK have the same fields and differ in the number of entries,
-- which the operations below take as `size`.
pub record CompressedRing : Type 0 where
  pub entries : Array CompressedEntry
  pub head : ℕ
  pub tail : ℕ
  pub count : ℕ

pub record Metadata : Type 0 where
  pub rip : ℕ
  pub micro_op_start : ℕ
  pub micro_op_count : ℕ
  pub bank_id : ℕ
  pub slot_in_bank : ℕ
  pub alloc_tick : ℕ

-- The file's globals; `none` is a NULL pointer.
pub record V72State : Type 0 where
  pub main_rob : Option CompressedRing
  pub ext_banks : Array (Option CompressedRing)
  pub meta : Option (Array Metadata)
  pub meta_head : ℕ
  pub meta_tail : ℕ
  pub meta_count : ℕ
  pub main_count : ℕ
  pub main_head : ℕ
  pub ext_counts : Array ℕ
  pub next_ext_bank : ℕ
  pub total_allocations : ℕ
  pub total_retirements : ℕ
  pub total_stalls : ℕ
  pub cycle_counter : ℕ

abbrev pub zero_ring : CompressedRing
zero_ring = record {
  entries = λ _. record { reorder_tag = 0; ready_mask = 0; state = free };
  head = 0;
  tail = 0;
  count = 0;
}

abbrev pub zero_meta : Array Metadata
zero_meta = λ _. record {
  rip = 0;
  micro_op_start = 0;
  micro_op_count = 0;
  bank_id = 0;
  slot_in_bank = 0;
  alloc_tick = 0;
}

-- The loop of V72RobDistributorInit that allocates the extended banks; `given i` says whether
-- AllocateZeroPool returned a block for bank i. It stops at the first failure.
pub init_ext : (ℕ → Bool) → ℕ → ℕ → V72State → Bool × V72State
init_ext given zero i s = (true, s)
init_ext given (suc rounds) i s =
    let placed = record s {
      ext_banks = update s.ext_banks i (some zero_ring);
      ext_counts = update s.ext_counts i 0;
    } in
    let rest = init_ext given rounds (i + 1) placed in
    if given i then rest else (false, record s { ext_banks = update s.ext_banks i none })

-- The last part of V72RobDistributorInit.
pub init_meta : Bool → V72State → EfiStatus × V72State
init_meta false s = (out_of_resources, record s { meta = none })
init_meta true s = (
  success,
  record s {
    main_rob = some zero_ring;
    meta = some zero_meta;
    meta_head = 0;
    meta_tail = 0;
    meta_count = 0;
    main_count = 0;
    main_head = 0;
    next_ext_bank = 0;
    total_allocations = 0;
    total_retirements = 0;
    total_stalls = 0;
    cycle_counter = 0;
  },
)

-- `main_given`, `ext_given` and `meta_given` say which of the pool allocations succeed.
pub distributor_init : Bool → (ℕ → Bool) → Bool → V72State → EfiStatus × V72State
distributor_init false ext_given meta_given s = (out_of_resources, record s { main_rob = none })
distributor_init true ext_given meta_given s =
    let (ok, t) = init_ext ext_given rob_banks 0 (record s { main_rob = some zero_ring }) in
    if ok then init_meta meta_given t else (out_of_resources, t)

-- How a call ends: it returns, or it dereferences a NULL pointer, or the search runs out of fuel.
pub data Call {ℓ} (A : Type ℓ) : Type ℓ where
  returns : A → Call A
  null_deref : Call A
  out_of_fuel : Call A

-- The write of a compressed entry at the tail. The tag is stored in 11 bits.
pub push_tag : ℕ → CompressedRing → ℕ → CompressedRing
push_tag size r tag = record {
  entries =
      update r.entries r.tail
        (record { reorder_tag = tag % 2 ^ 11; ready_mask = 0; state = allocated });
  head = r.head;
  tail = add32 r.tail 1 % size;
  count = add32 r.count 1;
}

-- The status, what goes through ReorderTag, and the new globals.
abbrev pub TagReply : Type 0
TagReply = EfiStatus × Option ℕ × V72State

-- What both branches of V72RobAllocateEntry end with: the metadata of the tag, and the counters.
pub record_tag : Option (Array Metadata) → V72State → ℕ → ℕ → ℕ → ℕ → ℕ → Call TagReply
record_tag none s rip start micro_ops bank slot = null_deref
record_tag (some meta) s rip start micro_ops bank slot =
    let entry : Metadata = record {
      rip = rip;
      micro_op_start = start;
      micro_op_count = micro_ops;
      bank_id = bank;
      slot_in_bank = slot;
      alloc_tick = s.cycle_counter;
    } in
    let t = record s {
      meta = some (update meta s.meta_tail entry);
      meta_tail = add32 s.meta_tail 1 % v72_rob_main_entries;
      meta_count = add32 s.meta_count 1;
      total_allocations = inc64 s.total_allocations;
    } in
    returns (success, some s.meta_tail, t)

-- The search stops at a bank with room, and at a NULL pointer, which it dereferences.
abbrev pub ext_has_room : Array (Option CompressedRing) → ℕ → Bool
ext_has_room banks b = elim (banks b) [ none ↦ true | some r ↦ ltb r.count v72_rob_ext_entries ]

abbrev pub in_ext : V72State → ℕ → CompressedRing → V72State
in_ext s eb r = record s {
  next_ext_bank = (eb + 1) % rob_banks;
  ext_banks = update s.ext_banks eb (some (push_tag v72_rob_ext_entries r s.meta_tail));
  ext_counts = update s.ext_counts eb (add32 (s.ext_counts eb) 1);
}

abbrev spill_into : V72State → ℕ → ℕ → ℕ → ℕ → Option CompressedRing → Call TagReply
spill_into s rip start micro_ops eb none = null_deref
spill_into s rip start micro_ops eb (some r) =
    record_tag s.meta (in_ext s eb r) rip start micro_ops eb r.tail

-- The main ring is full: spill to the extended banks.
abbrev spill : V72State → ℕ → ℕ → ℕ → BankSearch → Call TagReply
spill s rip start micro_ops unfinished = out_of_fuel
spill s rip start micro_ops all_full =
    returns (out_of_resources, none, record s { total_stalls = inc64 s.total_stalls })
spill s rip start micro_ops (found eb) = spill_into s rip start micro_ops eb (s.ext_banks eb)

abbrev pub in_main : V72State → CompressedRing → V72State
in_main s main = record s {
  main_rob = some (push_tag v72_rob_main_entries main s.meta_tail);
  main_count = add32 s.main_count 1;
}

abbrev allocate_in : V72State → Option CompressedRing → ℕ → ℕ → ℕ → Call TagReply
allocate_in s none rip start micro_ops = returns (not_ready, none, s)
allocate_in s (some main) rip start micro_ops =
    if ltb s.main_count v72_rob_main_entries
    then record_tag s.meta (in_main s main) rip start micro_ops main_bank_id main.tail
    else spill s rip start micro_ops
        (find_bank (ext_has_room s.ext_banks) rob_banks s.next_ext_bank s.next_ext_bank)

pub allocate_entry : V72State → ℕ → ℕ → ℕ → Call TagReply
unfolding record_tag
allocate_entry s rip start micro_ops = allocate_in s s.main_rob rip start micro_ops

pub tick : V72State → V72State
tick s = record s { cycle_counter = inc64 s.cycle_counter }

pub get_total_main_entries : ℕ
get_total_main_entries = v72_rob_main_entries

pub get_total_ext_entries : ℕ
get_total_ext_entries = v72_rob_ext_total

pub get_total_entries : ℕ
get_total_entries = v72_rob_main_entries + v72_rob_ext_total

-- The loop of V72RobGetActiveCount over the extended banks.
pub sum_ext : ℕ → Array (Option CompressedRing) → ℕ → ℕ → ℕ
sum_ext zero banks i total = total
sum_ext (suc rounds) banks i total =
    sum_ext rounds banks (i + 1) (elim (banks i) [ none ↦ total | some r ↦ add32 total r.count ])

abbrev active_in : V72State → Option CompressedRing → ℕ
active_in s none = 0
active_in s (some main) = sum_ext rob_banks s.ext_banks 0 main.count

pub get_active_count : V72State → ℕ
unfolding sum_ext
get_active_count s = active_in s s.main_rob
