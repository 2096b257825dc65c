-- ===== src/V72Rob/Ring.antt =====
-- The shape of a compressed ring, and the validity of the v7.2 state.
use bemi_bios.Prelude.{ℕ, ◌+◌, ◌%◌, ◌≤◌, ◌<◌, ◌≡◌, ◌⊎◌, Option, some, Array, arith}
use bemi_bios.BankSearch.{rob_banks}
use bemi_bios.V72Rob.{
  CompressedRing, Metadata, V72State, push_tag, v72_rob_main_entries, v72_rob_ext_entries,
  main_bank_id,
}

pub record IsRing (size : ℕ) (r : CompressedRing) : Type 0 where
  pub head_in : r.head < size
  pub count_in : r.count ≤ size
  pub tail_at : r.tail ≡ (r.head + r.count) % size

pub push_tag-IsMain :
    (r : CompressedRing) (tag : ℕ)
    → IsRing v72_rob_main_entries r
    → r.count < v72_rob_main_entries
    → IsRing v72_rob_main_entries (push_tag v72_rob_main_entries r tag)
unfolding push_tag
push_tag-IsMain r tag v h = omega arith

pub push_tag-IsExt :
    (r : CompressedRing) (tag : ℕ)
    → IsRing v72_rob_ext_entries r
    → r.count < v72_rob_ext_entries
    → IsRing v72_rob_ext_entries (push_tag v72_rob_ext_entries r tag)
unfolding push_tag
push_tag-IsExt r tag v h = omega arith

-- A pointer to a ring of the given size, and the second counter that the file keeps for it.
pub record Holds (size : ℕ) (p : Option CompressedRing) (counter : ℕ) : Type 0 where
  pub ring : CompressedRing
  pub points : p ≡ some ring
  pub shape : IsRing size ring
  pub agrees : counter ≡ ring.count

-- Metadata that names a slot inside the main ring or inside an extended bank.
abbrev pub InBounds : Metadata → Type 0
InBounds m =
    ((m.bank_id ≡ main_bank_id) × (m.slot_in_bank < v72_rob_main_entries))
    ⊎ ((m.bank_id < rob_banks) × (m.slot_in_bank < v72_rob_ext_entries))

pub record IsValid (s : V72State) : Type 0 where
  pub main : Holds v72_rob_main_entries s.main_rob s.main_count
  pub ext : (i : ℕ) → i < rob_banks → Holds v72_rob_ext_entries (s.ext_banks i) (s.ext_counts i)
  pub meta_at :
      (m : Array Metadata) × (s.meta ≡ some m)
      × ((tag : ℕ) → tag < v72_rob_main_entries → InBounds (m tag))
  pub tail_in : s.meta_tail < v72_rob_main_entries
  pub next_in : s.next_ext_bank < rob_banks
