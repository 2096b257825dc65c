-- ===== src/InterruptLatency/Latencies.antt =====
-- What deliveries record, and the bound that the recorded maximum is.
use bemi_bios.Prelude.{
  ℕ, ◌≤◌, ◌<◌, ◌≡◌, inl, inr, refl, false, some, List, [], ◌∷◌, ltb, if◌then◌else◌, inc64, sub64,
  arith, Bool-cases, Option-cases,
}
use bemi_bios.InterruptLatency.{
  max_interrupt_vectors, Interrupts, latency_init, register_handler, is_pending, is_free, find_slot,
  counted, enqueue, trigger, max, record_latency, deliver_slot, deliver, use_posted,
}
use bemi_bios.InterruptLatency.Queue.{First, find_slot-First, trigger_lem}

-- No event of the vector is pending.
abbrev pub Idle : Interrupts → ℕ → Type 0
Idle s vector = (j : ℕ) → j < max_interrupt_vectors → is_pending vector (s.events j) ≡ false

-- An idle vector's trigger cannot be coalesced, so it takes the first free slot.
trigger-Idle :
    (s : Interrupts) (now vector i : ℕ)
    → Idle s vector
    → First is_free s.events 0 max_interrupt_vectors i
    → trigger s now vector ≡ enqueue (counted s) now vector i
trigger-Idle s now vector i idle (lo, lt, free, before) = elim (trigger_lem s now vector) [
  | inl (j, (_, hj, pass, _), _) ↦ absurd (ground (arith, idle j hj))
  | inr (inl (j, f, e)) ↦
      let found = (find_slot-First is_free s i).1 (lo, lt, free, before) in
      let found' = (find_slot-First is_free s j).1 f in
      let same : i ≡ j = ground (arith, found, found') in rw same e
  | inr (inr (full, _)) ↦ absurd (ground (arith, full i lt))
]

-- A delivery at the slot that it finds.
deliver-slot :
    (s : Interrupts) (start now vector i : ℕ)
    → find_slot (is_pending vector) s ≡ some i
    → (s.events i).arrival_time ≡ start
    → let s' = deliver s now vector in
      let latency = sub64 now start in
      ((s'.events i).pending ≡ false)
      × (s'.max_observed ≡ max s.max_observed latency)
      × (s'.handlers vector ≡ record_latency (s.handlers vector) latency)
      × (s'.fast_path ≡ (if ltb latency 5 then inc64 s.fast_path else s.fast_path))
unfolding deliver deliver_slot
deliver-slot s start now vector i found arrived = elim (Bool-cases (ltb (sub64 now start) 5)) [
  | inl e ↦ rw (deliver, found, arrived, e) (ground arith, refl, ground arith, refl)
  | inr e ↦ rw (deliver, found, arrived, e) (ground arith, refl, ground arith, refl)
]

-- After a trigger of an idle vector at `start`, a delivery at `now` finds its event, in the slot
-- that was the first free one; the event is no longer pending, and the time between is counted in
-- the observed maximum and, where a handler is registered, in its statistics.
pub deliver-trigger :
    (s : Interrupts) (start now vector i : ℕ)
    → Idle s vector
    → First is_free s.events 0 max_interrupt_vectors i
    → let s' = deliver (trigger s start vector) now vector in
      let latency = sub64 now start in
      ((s'.events i).pending ≡ false)
      × (s'.max_observed ≡ max s.max_observed latency)
      × (s'.handlers vector ≡ record_latency (s.handlers vector) latency)
      × (s'.fast_path ≡ (if ltb latency 5 then inc64 s.fast_path else s.fast_path))
unfolding deliver deliver_slot
deliver-trigger s start now vector i idle (lo, lt, free, before) =
    let queued = enqueue (counted s) start vector i in
    let first : First (is_pending vector) queued.events 0 max_interrupt_vectors i =
      (lo, lt, ground arith, λ j low high. ground (arith, idle j (omega arith))) in
    let found = (find_slot-First (is_pending vector) queued i).1 first in
    rw (trigger-Idle s start vector i idle (lo, lt, free, before))
      (deliver-slot queued start now vector i found (ground arith))

-- A delivery of a vector with no pending event only counts a fast-path interrupt.
pub deliver-Idle :
    (s : Interrupts) (now vector : ℕ)
    → Idle s vector
    → deliver s now vector ≡ record s { fast_path = inc64 s.fast_path }
unfolding deliver
deliver-Idle s now vector idle = elim (Option-cases (find_slot (is_pending vector) s)) [
  | inl e ↦ rw (deliver, e) refl
  | inr (i, e) ↦
      let (_, lt, pass, _) = (find_slot-First (is_pending vector) s i).0 e in
      absurd (ground (arith, idle i lt))
]

pub data Operation : Type 0 where
  registers : ℕ → ℕ → Operation
  triggers : ℕ → ℕ → Operation
  delivers : ℕ → ℕ → Operation
  posts : ℕ → Operation

pub step : Interrupts → Operation → Interrupts
step s (registers vector address) = (register_handler s vector address).1
step s (triggers now vector) = trigger s now vector
step s (delivers now vector) = deliver s now vector
step s (posts vector) = (use_posted s vector).1

pub run : Interrupts → List Operation → Interrupts
run s [] = s
run s (o ∷ rest) = run (step s o) rest

-- No handler has seen a longer latency than the maximum over all.
abbrev pub Dominated : Interrupts → Type 0
Dominated s = (v : ℕ) → (s.handlers v).max_latency ≤ s.max_observed

trigger-statistics :
    (s : Interrupts) (now vector : ℕ)
    → ((trigger s now vector).handlers ≡ s.handlers)
      × ((trigger s now vector).max_observed ≡ s.max_observed)
trigger-statistics s now vector = elim (trigger_lem s now vector) [
  | inl (j, _, e) ↦ rw e (refl, refl)
  | inr (inl (j, _, e)) ↦ rw e (refl, refl)
  | inr (inr (_, e)) ↦ rw e (refl, refl)
]

deliver_slot-Dominated :
    (s : Interrupts) (now vector i : ℕ) → Dominated s → Dominated (deliver_slot s now vector i)
unfolding deliver_slot
deliver_slot-Dominated s now vector i h v = ground (arith, h v, h vector)

deliver-Dominated :
    (s : Interrupts) (now vector : ℕ) → Dominated s → Dominated (deliver s now vector)
unfolding deliver
deliver-Dominated s now vector h v = elim (Option-cases (find_slot (is_pending vector) s)) [
  | inl e ↦ rw (deliver, e) (h v)
  | inr (i, e) ↦ rw (deliver, e) (ground (arith, deliver_slot-Dominated s now vector i h v))
]

step-Dominated : (s : Interrupts) (o : Operation) → Dominated s → Dominated (step s o)
unfolding step register_handler use_posted
step-Dominated s (registers vector address) h v = ground (arith, h v, h vector)
step-Dominated s (triggers now vector) h v =
    let (handlers, most) = trigger-statistics s now vector in rw (handlers, most) (h v)
step-Dominated s (delivers now vector) h v = deliver-Dominated s now vector h v
step-Dominated s (posts vector) h v = ground (arith, h v)

run-Dominated_from :
    (s : Interrupts) (operations : List Operation) → Dominated s → Dominated (run s operations)
unfolding run
run-Dominated_from s [] h = h
run-Dominated_from s (o ∷ rest) h = run-Dominated_from (step s o) rest (step-Dominated s o h)

-- Whatever sequence of operations follows the initialisation, no handler's longest latency exceeds
-- the observed maximum.
pub run-Dominated : (operations : List Operation) → Dominated (run latency_init operations)
run-Dominated operations = run-Dominated_from latency_init operations (λ v. omega arith)
