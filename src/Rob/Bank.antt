-- ===== src/Rob/Bank.antt =====
-- One bank as a ring: its invariant, kept by push_entry, mark_retired, free_head and drain.
use bemi_bios.Prelude.{ℕ, zero, suc, ◌+◌, ◌%◌, ◌^◌, ◌≤◌, ◌<◌, ◌≡◌, ◌≢◌, false, ◌&&◌, ltb, arith}
use bemi_bios.Rob.{
  free, allocated, is_retired, RobEntry, RobBank, rob_entries_per_bank, empty_bank, push_entry,
  mark_retired, free_head, drain, retire_bank,
}

-- The slot that holds the k-th oldest entry.
abbrev pub slot_at : RobBank → ℕ → ℕ
slot_at bp k = (bp.head + k) % rob_entries_per_bank

-- The ring's shape: exactly the slots of the window hold entries, each labelled with its place.
pub record IsRing (id : ℕ) (bp : RobBank) : Type 0 where
  pub head_in : bp.head < rob_entries_per_bank
  pub count_in : bp.count ≤ rob_entries_per_bank
  pub tail_at : bp.tail ≡ slot_at bp bp.count
  pub max_low : bp.count ≤ bp.max_count
  pub max_high : bp.max_count ≤ rob_entries_per_bank
  pub live : (k : ℕ) → k < bp.count → (bp.slots (slot_at bp k)).state ≢ free
  pub dead :
      (k : ℕ) → bp.count ≤ k → k < rob_entries_per_bank → (bp.slots (slot_at bp k)).state ≡ free
  pub labelled : (k : ℕ) → k < bp.count → (bp.slots (slot_at bp k)).bank_id ≡ id
  pub placed : (k : ℕ) → k < bp.count → (bp.slots (slot_at bp k)).slot_in_bank ≡ slot_at bp k

-- Between two calls no retired entry waits at the head.
pub record IsBank (id : ℕ) (bp : RobBank) : Type 0 where
  pub ring : IsRing id bp
  pub front : 0 < bp.count → (bp.slots bp.head).state ≡ allocated

pub empty_bank-IsBank : (id : ℕ) → IsBank id empty_bank
empty_bank-IsBank id = ground arith

module _ {id : ℕ} {bp : RobBank} where
  push_live :
      (e : RobEntry)
      → IsRing id bp
      → bp.count < rob_entries_per_bank
      → e.state ≡ allocated
      → (k : ℕ) → k < (push_entry bp e).count
      → ((push_entry bp e).slots (slot_at (push_entry bp e) k)).state ≢ free
  unfolding push_entry
  push_live e v h s k hk = ground (arith, v.live k)

  push_dead :
      (e : RobEntry)
      → IsRing id bp
      → bp.count < rob_entries_per_bank
      → (k : ℕ) → (push_entry bp e).count ≤ k
      → k < rob_entries_per_bank
      → ((push_entry bp e).slots (slot_at (push_entry bp e) k)).state ≡ free
  unfolding push_entry
  push_dead e v h k lo hi = ground (arith, v.dead k)

  push_labelled :
      (e : RobEntry)
      → IsRing id bp
      → bp.count < rob_entries_per_bank
      → e.bank_id ≡ id
      → e.slot_in_bank ≡ bp.tail
      → (k : ℕ) → k < (push_entry bp e).count
      → let s = slot_at (push_entry bp e) k in
        (((push_entry bp e).slots s).bank_id ≡ id) × (((push_entry bp e).slots s).slot_in_bank ≡ s)
  unfolding push_entry
  push_labelled e v h i p k hk = ground (arith, v.labelled k, v.placed k)

  pub push_entry-IsRing :
      (e : RobEntry)
      → IsRing id bp
      → bp.count < rob_entries_per_bank
      → e.state ≡ allocated
      → e.bank_id ≡ id
      → e.slot_in_bank ≡ bp.tail
      → IsRing id (push_entry bp e)
  unfolding push_entry
  push_entry-IsRing e v h s i p = record {
    head_in = v.head_in;
    count_in = omega arith;
    tail_at = omega (arith, v.tail_at);
    max_low = ground (arith, v.max_low);
    max_high = ground (arith, v.max_high);
    live = push_live e v h s;
    dead = push_dead e v h;
    labelled = λ k hk. (push_labelled e v h i p k hk).0;
    placed = λ k hk. (push_labelled e v h i p k hk).1;
  }

  pub push_entry-IsBank :
      (e : RobEntry)
      → IsBank id bp
      → bp.count < rob_entries_per_bank
      → e.state ≡ allocated
      → e.bank_id ≡ id
      → e.slot_in_bank ≡ bp.tail
      → IsBank id (push_entry bp e)
  push_entry-IsBank e v h s i p = record {
    ring = push_entry-IsRing e v.ring h s i p;
    front = unfold push_entry in ground (arith, v.front, v.ring);
  }

  pub mark_retired-IsRing :
      (slot tick : ℕ)
      → IsRing id bp
      → (bp.slots slot).state ≡ allocated
      → IsRing id (mark_retired bp slot tick)
  unfolding mark_retired
  mark_retired-IsRing slot tick v h = record {
    head_in = v.head_in;
    count_in = v.count_in;
    tail_at = v.tail_at;
    max_low = v.max_low;
    max_high = v.max_high;
    live = λ k hk. ground (arith, v.live k);
    dead = λ k lo hi. ground (arith, v.dead k);
    labelled = λ k hk. ground (arith, v.labelled k);
    placed = λ k hk. ground (arith, v.placed k);
  }

  free_dead :
      IsRing id bp
      → 0 < bp.count
      → (k : ℕ) → (free_head bp).count ≤ k
      → k < rob_entries_per_bank
      → ((free_head bp).slots (slot_at (free_head bp) k)).state ≡ free
  unfolding free_head
  free_dead v h k lo hi = ground (arith, v.dead (k + 1))

  free_live :
      IsRing id bp
      → 0 < bp.count
      → (k : ℕ) → k < (free_head bp).count
      → let s = slot_at (free_head bp) k in
        (s ≡ slot_at bp (k + 1)) × ((free_head bp).slots s ≡ bp.slots s)
  unfolding free_head
  free_live v h k hk = ground arith

  pub free_head-IsRing : IsRing id bp → 0 < bp.count → IsRing id (free_head bp)
  unfolding free_head
  free_head-IsRing v h = record {
    head_in = omega arith;
    count_in = omega arith;
    tail_at = omega (arith, v.tail_at);
    max_low = omega arith;
    max_high = v.max_high;
    live = λ k hk. ground (arith, free_live v h k, v.live (k + 1));
    dead = free_dead v h;
    labelled = λ k hk. ground (arith, free_live v h k, v.labelled (k + 1));
    placed = λ k hk. ground (arith, free_live v h k, v.placed (k + 1));
  }

pub count-free_head :
    (bp : RobBank) → 0 < bp.count → bp.count < 2 ^ 32 → (free_head bp).count + 1 ≡ bp.count
unfolding free_head
count-free_head bp h r = omega arith

pub drain-IsRing : {id : ℕ} (n : ℕ) (bp : RobBank) → IsRing id bp → IsRing id (drain n bp)
unfolding drain
drain-IsRing zero bp v = v
drain-IsRing {id} (suc n) bp v =
    ground (arith, free_head-IsRing {bp = bp} v, drain-IsRing {id = id} n (free_head bp))

-- With the count for fuel the loop ends by its own test.
pub drain_done :
    {id : ℕ} (n : ℕ) (bp : RobBank)
    → IsRing id bp
    → bp.count ≤ n
    → let r = drain n bp in (ltb 0 r.count && is_retired (r.slots r.head).state) ≡ false
unfolding drain
drain_done zero bp v h = ground arith
drain_done {id} (suc n) bp v h = ground (
  arith,
  free_head-IsRing {id = id} {bp = bp} v,
  count-free_head bp,
  drain_done {id = id} n (free_head bp),
)

-- The head of a ring that is not retired is allocated.
front_of_done :
    {id : ℕ} {bp : RobBank}
    → IsRing id bp
    → (ltb 0 bp.count && is_retired (bp.slots bp.head).state) ≡ false
    → 0 < bp.count
    → (bp.slots bp.head).state ≡ allocated
front_of_done v h c = ground (arith, v.live 0)

-- Retiring an allocated slot of a bank leaves a bank.
pub retire_bank-IsBank :
    {id : ℕ} (bp : RobBank) (slot tick : ℕ)
    → IsBank id bp
    → (bp.slots slot).state ≡ allocated
    → IsBank id (retire_bank bp slot tick)
unfolding retire_bank
retire_bank-IsBank {id} bp slot tick v h =
    let marked = mark_retired-IsRing {id = id} {bp = bp} slot tick v.ring h in
    let drained = drain-IsRing bp.count (mark_retired bp slot tick) marked in
    record {
      ring = drained;
      front = front_of_done drained (
          drain_done bp.count (mark_retired bp slot tick) marked
            (unfold mark_retired in omega arith));
    }
