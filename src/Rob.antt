-- ===== src/Rob.antt =====
-- The v7.1 reorder-buffer distributor of performance/rob/robdistributor.c: seven banks, each a
-- ring of 112 slots, filled round-robin and drained in order.
pub mod Bank
pub mod Order
pub mod Valid
pub mod Retire
pub mod Active
mod Tests
use bemi_bios.Prelude.{
  ℕ, zero, suc, ◌+◌, ◌*◌, ◌%◌, Bool, true, false, ◌&&◌, ◌||◌, Option, none, some, ltb, leb, ◌==◌,
  if◌then◌else◌, Array, update, inc64, dec32, add32,
}
use bemi_bios.BankSearch.{rob_banks, BankSearch, found, all_full, unfinished, find_bank}
use bemi_bios.Efi.{EfiStatus, success, not_ready, invalid_parameter, out_of_resources}

abbrev pub rob_entries_per_bank : ℕ
rob_entries_per_bank = 112

abbrev pub rob_total_entries : ℕ
rob_total_entries = rob_banks * rob_entries_per_bank

-- ROB_ENTRY_FREE, ROB_ENTRY_ALLOCATED and ROB_ENTRY_RETIRED
pub data EntryState : Type 0 where
  free : EntryState
  allocated : EntryState
  retired : EntryState

abbrev pub is_allocated : EntryState → Bool
is_allocated free = false
is_allocated allocated = true
is_allocated retired = false

abbrev pub is_retired : EntryState → Bool
is_retired free = false
is_retired allocated = false
is_retired retired = true

pub record RobEntry : Type 0 where
  pub rip : ℕ
  pub micro_op_start : ℕ
  pub micro_op_count : ℕ
  pub state : EntryState
  pub alloc_tick : ℕ
  pub retire_tick : ℕ
  pub bank_id : ℕ
  pub slot_in_bank : ℕ

pub record RobBank : Type 0 where
  pub head : ℕ
  pub tail : ℕ
  pub count : ℕ
  pub max_count : ℕ
  pub slots : Array RobEntry

pub record RobDistributor : Type 0 where
  pub banks : Array RobBank
  pub next_alloc_bank : ℕ
  pub total_allocations : ℕ
  pub total_retirements : ℕ
  pub total_stalls : ℕ
  pub cycle_counter : ℕ

-- What zeroed memory holds.
abbrev pub zero_entry : RobEntry
zero_entry = record {
  rip = 0;
  micro_op_start = 0;
  micro_op_count = 0;
  state = free;
  alloc_tick = 0;
  retire_tick = 0;
  bank_id = 0;
  slot_in_bank = 0;
}

abbrev pub empty_bank : RobBank
empty_bank = record { head = 0; tail = 0; count = 0; max_count = 0; slots = λ _. zero_entry }

abbrev pub fresh_distributor : RobDistributor
fresh_distributor = record {
  banks = λ _. empty_bank;
  next_alloc_bank = 0;
  total_allocations = 0;
  total_retirements = 0;
  total_stalls = 0;
  cycle_counter = 0;
}

-- `given` says whether AllocateZeroPool returned a block. The result is the new `gRob`.
pub distributor_init : Bool → EfiStatus × Option RobDistributor
distributor_init false = (out_of_resources, none)
distributor_init true = (success, some fresh_distributor)

-- A bank that the search of RobAllocateEntry stops at.
abbrev pub bank_has_room : Array RobBank → ℕ → Bool
bank_has_room banks b = ltb (banks b).count rob_entries_per_bank

-- The write to the tail slot, and the bank's bookkeeping.
pub push_entry : RobBank → RobEntry → RobBank
push_entry bp entry =
    let count = add32 bp.count 1 in
    record {
      head = bp.head;
      tail = add32 bp.tail 1 % rob_entries_per_bank;
      count = count;
      max_count = if ltb bp.max_count count then count else bp.max_count;
      slots = update bp.slots bp.tail entry;
    }

-- The status, what goes through BankId and SlotId (where the caller passes them), and `gRob`.
abbrev pub AllocateReply : Type 0
AllocateReply = EfiStatus × Option (ℕ × ℕ) × Option RobDistributor

abbrev pub new_entry : RobDistributor → ℕ → ℕ → ℕ → ℕ → RobEntry
new_entry rob rip start micro_ops b = record {
  rip = rip;
  micro_op_start = start;
  micro_op_count = micro_ops;
  state = allocated;
  alloc_tick = rob.cycle_counter;
  retire_tick = 0;
  bank_id = b;
  slot_in_bank = (rob.banks b).tail;
}

abbrev finish_allocate : RobDistributor → ℕ → ℕ → ℕ → BankSearch → Option AllocateReply
finish_allocate rob rip start micro_ops unfinished = none
finish_allocate rob rip start micro_ops all_full =
    some (out_of_resources, none, some (record rob { total_stalls = inc64 rob.total_stalls }))
finish_allocate rob rip start micro_ops (found b) =
    let bp = rob.banks b in
    some (
      success,
      some (b, bp.tail),
      some (record rob {
        banks = update rob.banks b (push_entry bp (new_entry rob rip start micro_ops b));
        next_alloc_bank = (b + 1) % rob_banks;
        total_allocations = inc64 rob.total_allocations;
      }),
    )

-- `none` means that the search ran out of fuel; `BankSearch.Cyclic.find_bank_total` excludes it.
pub allocate_entry : Option RobDistributor → ℕ → ℕ → ℕ → Option AllocateReply
allocate_entry none rip start micro_ops = some (not_ready, none, none)
allocate_entry (some rob) rip start micro_ops =
    finish_allocate rob rip start micro_ops
      (find_bank (bank_has_room rob.banks) rob_banks rob.next_alloc_bank rob.next_alloc_bank)

-- entry->State = ROB_ENTRY_RETIRED; entry->RetireTick = gRob->CycleCounter;
pub mark_retired : RobBank → ℕ → ℕ → RobBank
mark_retired bp slot tick = record bp {
  slots = update bp.slots slot (record (bp.slots slot) { state = retired; retire_tick = tick });
}

-- The body of the while loop of RobRetireEntry.
pub free_head : RobBank → RobBank
free_head bp = record bp {
  slots = update bp.slots bp.head (record (bp.slots bp.head) { state = free });
  head = add32 bp.head 1 % rob_entries_per_bank;
  count = dec32 bp.count;
}

-- The while loop. Each round takes one off the count, so `bp.count` rounds are enough.
pub drain : ℕ → RobBank → RobBank
drain zero bp = bp
drain (suc fuel) bp = elim (ltb 0 bp.count && is_retired (bp.slots bp.head).state) [
  | true ↦ drain fuel (free_head bp)
  | false ↦ bp
]

pub retire_bank : RobBank → ℕ → ℕ → RobBank
retire_bank bp slot tick = drain bp.count (mark_retired bp slot tick)

pub retire_entry : Option RobDistributor → ℕ → ℕ → EfiStatus × Option RobDistributor
retire_entry none bank slot = (not_ready, none)
retire_entry (some rob) bank slot =
    if leb rob_banks bank || leb rob_entries_per_bank slot
    then (invalid_parameter, some rob)
    else (if is_allocated ((rob.banks bank).slots slot).state
        then (
          success,
          some (record rob {
            banks = update rob.banks bank (retire_bank (rob.banks bank) slot rob.cycle_counter);
            total_retirements = inc64 rob.total_retirements;
          }),
        )
        else (not_ready, some rob))

pub tick : Option RobDistributor → Option RobDistributor
tick none = none
tick (some rob) = some (record rob { cycle_counter = inc64 rob.cycle_counter })

pub get_total_entries : ℕ
get_total_entries = rob_total_entries

-- The loop of RobGetActiveCount over the banks b, b + 1, ...
pub sum_counts : ℕ → Array RobBank → ℕ → ℕ → ℕ
sum_counts zero banks b total = total
sum_counts (suc rounds) banks b total =
    sum_counts rounds banks (b + 1) (add32 total (banks b).count)

pub get_active_count : Option RobDistributor → ℕ
get_active_count none = 0
get_active_count (some rob) = sum_counts rob_banks rob.banks 0 0
