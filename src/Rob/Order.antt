-- ===== src/Rob/Order.antt =====
-- A bank as the queue of its entries, oldest first: what each bank operation does to the queue.
use bemi_bios.Prelude.{
  ℕ, zero, suc, ◌+◌, ◌-◌, ◌%◌, ◌^◌, ◌≤◌, ◌<◌, ◌≡◌, refl, ap, ap₂, ◌∙◌, update, Bool, true, false,
  ◌&&◌, ltb, if◌then◌else◌, inl, inr, Bool-cases, arith, Array, dec32, List, [], ◌∷◌, ◌++◌, length,
}
use bemi_bios.Rob.{
  allocated, retired, is_retired, RobEntry, RobBank, rob_entries_per_bank, push_entry, mark_retired,
  free_head, drain, retire_bank,
}
use bemi_bios.Rob.Bank.{slot_at, IsRing, free_head-IsRing, count-free_head, mark_retired-IsRing}

-- The n entries from slot h on, going round at 112.
pub window : Array RobEntry → ℕ → ℕ → List RobEntry
window slots h zero = []
window slots h (suc n) = slots h ∷ window slots ((h + 1) % rob_entries_per_bank) n

pub contents : RobBank → List RobEntry
contents bp = window bp.slots bp.head bp.count

-- The specification of retirement: entries leave the queue from the front while they are retired.
pub drop_retired : List RobEntry → List RobEntry
drop_retired [] = []
drop_retired (e ∷ es) = let rest = drop_retired es in if is_retired e.state then rest else e ∷ es

-- The k-th entry of the queue is marked.
pub mark_nth : ℕ → ℕ → List RobEntry → List RobEntry
mark_nth k tick [] = []
mark_nth zero tick (e ∷ es) = record e { state = retired; retire_tick = tick } ∷ es
mark_nth (suc k) tick (e ∷ es) = e ∷ mark_nth k tick es

length-window : (slots : Array RobEntry) (h n : ℕ) → length (window slots h n) ≡ n
unfolding window
length-window slots h zero = refl
length-window slots h (suc n) = ap suc (length-window slots ((h + 1) % rob_entries_per_bank) n)

pub length-contents : (bp : RobBank) → length (contents bp) ≡ bp.count
unfolding contents
length-contents bp = length-window bp.slots bp.head bp.count

-- A window reads only its own slots.
window_cong :
    (a b : Array RobEntry) (h n : ℕ)
    → ((k : ℕ) → k < n → a ((h + k) % rob_entries_per_bank) ≡ b ((h + k) % rob_entries_per_bank))
    → h < rob_entries_per_bank
    → window a h n ≡ window b h n
unfolding window
window_cong a b h zero same hh = refl
window_cong a b h (suc n) same hh =
    let here : (h + 0) % rob_entries_per_bank ≡ h = omega arith in
    let first : a h ≡ b h = rw here at (same 0 (omega arith)) in
    let shift = λ (k : ℕ).
      let e : ((h + 1) % rob_entries_per_bank + k) % rob_entries_per_bank
          ≡ (h + (k + 1)) % rob_entries_per_bank =
        omega arith in
      e in
    rw (
      first,
      window_cong a b ((h + 1) % rob_entries_per_bank) n
          (λ k hk. rw (shift k) (same (k + 1) (omega arith))) (omega arith),
    )

window-snoc :
    (a : Array RobEntry) (h n : ℕ)
    → h < rob_entries_per_bank
    → window a h (suc n) ≡ window a h n ++ a ((h + n) % rob_entries_per_bank) ∷ []
unfolding window
window-snoc a h zero hh = let here : (h + 0) % rob_entries_per_bank ≡ h = omega arith in rw here
window-snoc a h (suc n) hh =
    let next = (h + 1) % rob_entries_per_bank in
    let e : (next + n) % rob_entries_per_bank ≡ (h + suc n) % rob_entries_per_bank = omega arith in
    ap (λ t. a h ∷ t) (window-snoc a next n (omega arith) ∙ rw e)

window_mark :
    (a : Array RobEntry) (h n k s tick : ℕ)
    → k < n
    → n ≤ rob_entries_per_bank
    → h < rob_entries_per_bank
    → s ≡ (h + k) % rob_entries_per_bank
    → window (update a s (record (a s) { state = retired; retire_tick = tick })) h n
      ≡ mark_nth k tick (window a h n)
unfolding window mark_nth
window_mark a h zero k s tick hk hn hh e = absurd (omega arith)
window_mark a h (suc n) zero s tick hk hn hh e =
    let at_head : s ≡ h = omega arith in
    let new = record (a s) { state = retired; retire_tick = tick } in
    let next = (h + 1) % rob_entries_per_bank in
    let self : update a s new h ≡ record (a h) { state = retired; retire_tick = tick } =
      ground arith in
    ap₂ ◌∷◌ self (window_cong (update a s new) a next n (λ j hj. ground arith) (omega arith))
window_mark a h (suc n) (suc k) s tick hk hn hh e =
    let next = (h + 1) % rob_entries_per_bank in
    let rest =
      window_mark a next n k s tick (omega arith) (omega arith) (omega arith) (omega arith) in
    let kept : update a s (record (a s) { state = retired; retire_tick = tick }) h ≡ a h =
      ground arith in
    ap₂ ◌∷◌ kept rest

module _ {id : ℕ} (bp : RobBank) (v : IsRing id bp) where
  -- Writing at the tail appends the entry.
  pub contents-push_entry :
      (e : RobEntry)
      → bp.count < rob_entries_per_bank
      → contents (push_entry bp e) ≡ contents bp ++ e ∷ []
  unfolding contents push_entry
  contents-push_entry e h =
      let grown : (bp.count + 1) % 2 ^ 32 ≡ suc bp.count = omega arith in
      let a = update bp.slots bp.tail e in
      let old : window a bp.head bp.count ≡ window bp.slots bp.head bp.count =
        window_cong a bp.slots bp.head bp.count (λ k hk. ground (arith, v.tail_at)) v.head_in in
      let self : a (slot_at bp bp.count) ≡ e = ground (arith, v.tail_at) in
      rw (grown, window-snoc a bp.head bp.count v.head_in, old, self)

  pub contents-mark_retired :
      (k tick : ℕ)
      → k < bp.count
      → contents (mark_retired bp (slot_at bp k) tick) ≡ mark_nth k tick (contents bp)
  unfolding contents mark_retired
  contents-mark_retired k tick h =
      window_mark bp.slots bp.head bp.count k (slot_at bp k) tick h v.count_in v.head_in refl

  contents_uncons : 0 < bp.count → contents bp ≡ bp.slots bp.head ∷ contents (free_head bp)
  unfolding contents free_head window
  contents_uncons h =
      let n = bp.count - 1 in
      let e : bp.count ≡ suc n = omega arith in
      let less : dec32 bp.count ≡ n = omega (arith, v.count_in) in
      let next = (bp.head + 1) % rob_entries_per_bank in
      let moved : (bp.head + 1) % 2 ^ 32 % rob_entries_per_bank ≡ next = omega (arith, v.head_in) in
      let freed = (free_head bp).slots in
      let kept : window bp.slots next n ≡ window freed next n =
        window_cong bp.slots freed next n (λ j hj. ground (arith, v.count_in)) (omega arith) in
      ap (window bp.slots bp.head) e ∙ ap (λ t. bp.slots bp.head ∷ t) (kept ∙ rw (less, moved))

head_waits : RobBank → Bool
head_waits bp = ltb 0 bp.count && is_retired (bp.slots bp.head).state

drain_step :
    (n : ℕ) (bp : RobBank) → head_waits bp ≡ true → drain (suc n) bp ≡ drain n (free_head bp)
unfolding drain head_waits
drain_step n bp h = ground arith

drain_stop : (n : ℕ) (bp : RobBank) → head_waits bp ≡ false → drain (suc n) bp ≡ bp
unfolding drain head_waits
drain_stop n bp h = ground arith

-- Draining a ring is dropping the retired front of its queue.
pub contents-drain :
    {id : ℕ} (n : ℕ) (bp : RobBank)
    → IsRing id bp
    → bp.count ≡ n
    → contents (drain n bp) ≡ drop_retired (contents bp)
unfolding drop_retired
contents-drain zero bp v h =
    let e : contents bp ≡ [] = unfold contents window in rw h in unfold drain in rw e
contents-drain {id} (suc n) bp v h = elim (Bool-cases (is_retired (bp.slots bp.head).state)) [
  | inl r ↦
      let t : head_waits bp ≡ true = unfold head_waits in ground arith in
      let smaller : (free_head bp).count ≡ n =
        omega (arith, count-free_head bp (omega arith) (omega (arith, v.count_in))) in
      rw (drain_step n bp t, contents_uncons bp v (omega arith), r)
        (contents-drain n (free_head bp) (free_head-IsRing {id = id} {bp = bp} v (omega arith))
          smaller)
  | inr r ↦
      let t : head_waits bp ≡ false = unfold head_waits in ground arith in
      rw (drain_stop n bp t, contents_uncons bp v (omega arith), r)
]

-- RobRetireEntry on a bank: the entry is marked, and the retired front leaves the queue.
pub contents-retire_bank :
    {id : ℕ} (bp : RobBank) (k tick : ℕ)
    → IsRing id bp
    → k < bp.count
    → (bp.slots (slot_at bp k)).state ≡ allocated
    → contents (retire_bank bp (slot_at bp k) tick) ≡ drop_retired (mark_nth k tick (contents bp))
unfolding retire_bank
contents-retire_bank bp k tick v h a =
    contents-drain bp.count (mark_retired bp (slot_at bp k) tick)
      (mark_retired-IsRing (slot_at bp k) tick v a) (unfold mark_retired in refl)
    ∙ ap drop_retired (contents-mark_retired bp v k tick h)
