-- ===== src/InterruptLatency.antt =====
-- The interrupt queue and its latency statistics, performance/interrupt/interruptlatency.c. The time
-- stamp that AsmReadTsc returns is an argument of the operations that read it.
pub mod Queue
pub mod Latencies
mod Tests
use bemi_bios.Prelude.{
  ℕ, zero, suc, ◌+◌, ◌-◌, ◌*◌, ◌/◌, ◌%◌, ◌^◌, Bool, true, false, ◌&&◌, ◌||◌, not, Option, none,
  some, ltb, leb, ◌==◌, if◌then◌else◌, Array, update, inc64, add64, sub64,
}
use bemi_bios.Efi.{EfiStatus, success, invalid_parameter}

abbrev pub max_interrupt_vectors : ℕ
max_interrupt_vectors = 256

abbrev pub posted_interrupt_vector : ℕ
posted_interrupt_vector = 0xFE

abbrev pub interrupt_coalesce_window : ℕ
interrupt_coalesce_window = 100

pub record InterruptEvent : Type 0 where
  pub vector : ℕ
  pub arrival_time : ℕ
  pub delivery_time : ℕ
  pub pending : Bool
  pub coalesced : Bool

pub record InterruptHandler : Type 0 where
  pub vector : ℕ
  pub handler_address : ℕ
  pub registered : Bool
  pub total_latency : ℕ
  pub max_latency : ℕ
  pub count : ℕ

pub record Interrupts : Type 0 where
  pub events : Array InterruptEvent
  pub handlers : Array InterruptHandler
  pub max_observed : ℕ
  pub total : ℕ
  pub posted : ℕ
  pub coalesced : ℕ
  pub fast_path : ℕ

-- InterruptLatencyInit
abbrev pub latency_init : Interrupts
latency_init = record {
  events = λ _. record {
    vector = 0;
    arrival_time = 0;
    delivery_time = 0;
    pending = false;
    coalesced = false;
  };
  handlers = λ _. record {
    vector = 0;
    handler_address = 0;
    registered = false;
    total_latency = 0;
    max_latency = 0;
    count = 0;
  };
  max_observed = 0;
  total = 0;
  posted = 0;
  coalesced = 0;
  fast_path = 0;
}

-- InterruptRegisterHandler
unfoldable pub register_handler : Interrupts → ℕ → ℕ → EfiStatus × Interrupts
register_handler s vector address =
    if leb max_interrupt_vectors vector then (invalid_parameter, s) else (
      success,
      record s {
        handlers = update s.handlers vector (record (s.handlers vector) {
          vector = vector;
          handler_address = address;
          registered = true;
        });
      },
    )

-- The loops over the event queue: the first slot from i on that passes a test.
unfoldable pub find_event : (InterruptEvent → Bool) → Array InterruptEvent → ℕ → ℕ → Option ℕ
find_event test events zero i = none
find_event test events (suc rounds) i =
    let rest = find_event test events rounds (i + 1) in if test (events i) then some i else rest

abbrev pub is_pending : ℕ → InterruptEvent → Bool
is_pending vector e = e.pending && e.vector == vector

abbrev pub can_coalesce : ℕ → ℕ → InterruptEvent → Bool
can_coalesce now vector e =
    is_pending vector e && ltb (sub64 now e.arrival_time) interrupt_coalesce_window

abbrev pub is_free : InterruptEvent → Bool
is_free e = not e.pending

-- A loop over the whole queue.
unfoldable pub find_slot : (InterruptEvent → Bool) → Interrupts → Option ℕ
find_slot test s = find_event test s.events max_interrupt_vectors 0

abbrev pub counted : Interrupts → Interrupts
counted s = record s { total = inc64 s.total }

abbrev pub coalesce : Interrupts → ℕ → Interrupts
coalesce s i = record s {
  events = update s.events i (record (s.events i) { coalesced = true });
  coalesced = inc64 s.coalesced;
}

abbrev pub enqueue : Interrupts → ℕ → ℕ → ℕ → Interrupts
enqueue s now vector i = record s {
  events = update s.events i (record (s.events i) {
    vector = vector;
    arrival_time = now;
    pending = true;
    coalesced = false;
  });
}

-- InterruptTrigger at time `now`
unfoldable pub trigger : Interrupts → ℕ → ℕ → Interrupts
trigger s now vector = elim (find_slot (can_coalesce now vector) (counted s)) [
  | some i ↦ coalesce (counted s) i
  | none ↦ elim (find_slot is_free (counted s)) [
    | some i ↦ enqueue (counted s) now vector i
    | none ↦ counted s
  ]
]

abbrev pub max : ℕ → ℕ → ℕ
max a b = if ltb a b then b else a

abbrev pub record_latency : InterruptHandler → ℕ → InterruptHandler
record_latency h latency =
    if h.registered
    then record h {
      total_latency = add64 h.total_latency latency;
      count = inc64 h.count;
      max_latency = max h.max_latency latency;
    }
    else h

-- The body of the loop of InterruptDeliver at the slot that it finds.
unfoldable pub deliver_slot : Interrupts → ℕ → ℕ → ℕ → Interrupts
deliver_slot s now vector i =
    let latency = sub64 now (s.events i).arrival_time in
    record s {
      events = update s.events i (record (s.events i) { delivery_time = now; pending = false });
      max_observed = max s.max_observed latency;
      handlers = update s.handlers vector (record_latency (s.handlers vector) latency);
    }

-- The test at the end of InterruptDeliver.
abbrev pub count_fast_path : Interrupts → ℕ → Interrupts
count_fast_path s latency = if ltb latency 5 then record s { fast_path = inc64 s.fast_path } else s

-- InterruptDeliver at time `now`
unfoldable pub deliver : Interrupts → ℕ → ℕ → Interrupts
deliver s now vector = elim (find_slot (is_pending vector) s) [
  | some i ↦ count_fast_path (deliver_slot s now vector i) (sub64 now (s.events i).arrival_time)
  | none ↦ count_fast_path s 0
]

-- InterruptUsePosted
unfoldable pub use_posted : Interrupts → ℕ → Bool × Interrupts
use_posted s vector =
    if vector == posted_interrupt_vector
    then (true, record s { posted = inc64 s.posted })
    else (false, s)

-- InterruptUseFastPath
abbrev pub use_fast_path : ℕ → ℕ → Bool
use_fast_path vector current = if ltb current 1000 then true else ltb vector 32
