-- ===== src/InterruptLatency/Queue.antt =====
-- The event queue: what a trigger does, and what a delivery finds after it.
use bemi_bios.Prelude.{
  ℕ, zero, suc, ◌+◌, ◌≤◌, ◌<◌, ◌≡◌, ◌⊎◌, inl, inr, refl, Bool, true, false, none, some, ◌==◌, Array,
  arith, Bool-cases, Option-cases,
}
use bemi_bios.InterruptLatency.{
  max_interrupt_vectors, InterruptEvent, Interrupts, find_event, can_coalesce, is_free, find_slot,
  counted, coalesce, enqueue, trigger,
}

-- i is the first slot from `first` on that passes the test.
abbrev pub First : (InterruptEvent → Bool) → Array InterruptEvent → ℕ → ℕ → ℕ → Type 0
First test events first last i =
    (first ≤ i)
    × (i < last)
    × (test (events i) ≡ true)
    × ((j : ℕ) → first ≤ j → j < i → test (events j) ≡ false)

find_event-First :
    (test : InterruptEvent → Bool) (events : Array InterruptEvent) (rounds first i : ℕ)
    → find_event test events rounds first ≡ some i
    → First test events first (first + rounds) i
unfolding find_event
find_event-First test events zero first i h = absurd (ground arith)
find_event-First test events (suc rounds) first i h = elim (Bool-cases (test (events first))) [
  | inl e ↦
      let same : first ≡ i = ground (arith, e) in
      (
        omega (arith, same),
        omega (arith, same),
        ground (arith, e, same),
        λ j lo hi. absurd (omega (arith, same)),
      )
  | inr e ↦
      let (lo, hi, pass, before) =
        find_event-First test events rounds (first + 1) i (ground (arith, e)) in
      (
        omega (arith, lo),
        omega (arith, hi),
        pass,
        λ j low high. elim (Bool-cases (j == first)) [
          | inl q ↦ ground (arith, e)
          | inr q ↦ before j (ground arith) high
        ],
      )
]

find_event-fails :
    (test : InterruptEvent → Bool) (events : Array InterruptEvent) (rounds first : ℕ)
    → find_event test events rounds first ≡ none
    → (j : ℕ) → first ≤ j
    → j < first + rounds
    → test (events j) ≡ false
unfolding find_event
find_event-fails test events zero first h j lo hi = absurd (omega arith)
find_event-fails test events (suc rounds) first h j lo hi =
    elim (Bool-cases (test (events first))) [
      | inl e ↦ absurd (ground (arith, e))
      | inr e ↦ elim (Bool-cases (j == first)) [
        | inl q ↦ ground (arith, e)
        | inr q ↦
            find_event-fails test events rounds (first + 1) (ground (arith, e)) j (ground arith)
              (omega arith)
      ]
    ]

-- Conversely, a first slot is the one that is found.
find_event-of_First :
    (test : InterruptEvent → Bool) (events : Array InterruptEvent) (rounds first i : ℕ)
    → First test events first (first + rounds) i
    → find_event test events rounds first ≡ some i
unfolding find_event
find_event-of_First test events zero first i (lo, hi, _, _) = absurd (omega arith)
find_event-of_First test events (suc rounds) first i (lo, hi, pass, before) =
    elim (Bool-cases (first == i)) [
      | inl q ↦ ground (arith, pass)
      | inr q ↦
          let rest =
            find_event-of_First test events rounds (first + 1) i
              (ground arith, omega arith, pass, λ j low high. before j (omega arith) high) in
          rw (before first (omega arith) (ground arith), rest) refl
    ]

pub find_slot-First :
    (test : InterruptEvent → Bool) (s : Interrupts) (i : ℕ)
    → (find_slot test s ≡ some i → First test s.events 0 max_interrupt_vectors i)
      × (First test s.events 0 max_interrupt_vectors i → find_slot test s ≡ some i)
unfolding find_slot
find_slot-First test s i = (
  find_event-First test s.events max_interrupt_vectors 0 i,
  find_event-of_First test s.events max_interrupt_vectors 0 i,
)

pub find_slot-fails :
    (test : InterruptEvent → Bool) (s : Interrupts)
    → find_slot test s ≡ none
    → (j : ℕ) → j < max_interrupt_vectors
    → test (s.events j) ≡ false
unfolding find_slot
find_slot-fails test s h j lt =
    find_event-fails test s.events max_interrupt_vectors 0 h j (omega arith) lt

-- The three ways a trigger can end.
abbrev pub Coalesced : Interrupts → ℕ → ℕ → Type 0
Coalesced s now vector =
    (i : ℕ) × First (can_coalesce now vector) s.events 0 max_interrupt_vectors i
    × (trigger s now vector ≡ coalesce (counted s) i)

abbrev pub Enqueued : Interrupts → ℕ → ℕ → Type 0
Enqueued s now vector =
    (i : ℕ) × First is_free s.events 0 max_interrupt_vectors i
    × (trigger s now vector ≡ enqueue (counted s) now vector i)

abbrev pub Dropped : Interrupts → ℕ → ℕ → Type 0
Dropped s now vector =
    ((j : ℕ) → j < max_interrupt_vectors → (s.events j).pending ≡ true)
    × (trigger s now vector ≡ counted s)

-- A trigger is joined to the first pending event of its vector that is younger than the window;
-- where there is none it takes the first free slot; and it is lost where all 256 slots are pending.
pub trigger_lem :
    (s : Interrupts) (now vector : ℕ)
    → Coalesced s now vector ⊎ (Enqueued s now vector ⊎ Dropped s now vector)
unfolding trigger
trigger_lem s now vector = elim (Option-cases (find_slot (can_coalesce now vector) (counted s))) [
  | inr (i, e) ↦
      inl (i, (find_slot-First (can_coalesce now vector) (counted s) i).0 e, rw (trigger, e) refl)
  | inl e ↦ elim (Option-cases (find_slot is_free (counted s))) [
    | inr (i, f) ↦
        inr (inl (i, (find_slot-First is_free (counted s) i).0 f, rw (trigger, e, f) refl))
    | inl f ↦ inr (
        inr (
          λ j lt. ground (arith, find_slot-fails is_free (counted s) f j lt),
          rw (trigger, e, f) refl,
        ))
  ]
]
