-- ===== src/Rob/Valid.antt =====
-- The distributor's invariant, and what RobDistributorInit, RobAllocateEntry, RobRetireEntry and
-- RobGetActiveCount do to a distributor that satisfies it.
use bemi_bios.Prelude.{
  ltb→lt, ℕ, ◌+◌, ◌%◌, ◌<◌, ◌≡◌, ◌≢◌, refl, update, Bool, true, false, ◌⊎◌, inl, inr, arith, inc64,
  [], ◌∷◌, ◌++◌, Option, none, some,
}
use bemi_bios.Efi.{success, out_of_resources}
use bemi_bios.Rob.{
  free, RobEntry, RobDistributor, AllocateReply, new_entry, finish_allocate, fresh_distributor,
  distributor_init, allocate_entry, push_entry, get_active_count, sum_counts, bank_has_room,
}
use bemi_bios.BankSearch.{rob_banks, BankSearch, found, all_full, unfinished}
use bemi_bios.Rob.Bank.{IsBank, empty_bank-IsBank, push_entry-IsBank}
use bemi_bios.BankSearch.Cyclic.{FirstRoom, Finds, find_bank_total}
use bemi_bios.Rob.Order.{contents, contents-push_entry}

pub record IsValid (rob : RobDistributor) : Type 0 where
  pub next_in : rob.next_alloc_bank < rob_banks
  pub each : (b : ℕ) → b < rob_banks → IsBank b (rob.banks b)

pub fresh-IsValid : IsValid fresh_distributor
fresh-IsValid = record { next_in = omega arith; each = λ b hb. empty_bank-IsBank b }

-- Initialisation either fails with no distributor, or gives a valid one with no active entry.
pub distributor_init-IsValid :
    (given : Bool)
    → (distributor_init given ≡ (out_of_resources, none))
      ⊎ ((rob : RobDistributor) × (distributor_init given ≡ (success, some rob))
          × IsValid rob
          × (get_active_count (some rob) ≡ 0))
unfolding distributor_init get_active_count sum_counts
distributor_init-IsValid false = inl refl
distributor_init-IsValid true = inr (fresh_distributor, refl, fresh-IsValid, refl)

-- What a successful allocation has done.
pub record Allocates (rob : RobDistributor) (e : RobEntry) (b : ℕ) (rob' : RobDistributor)
    : Type 0 where
  pub first : FirstRoom (bank_has_room rob.banks) rob.next_alloc_bank b
  pub vacant : ((rob.banks b).slots (rob.banks b).tail).state ≡ free
  pub appended : contents (rob'.banks b) ≡ contents (rob.banks b) ++ e ∷ []
  pub others : (c : ℕ) → c ≢ b → rob'.banks c ≡ rob.banks c
  pub counted : rob'.total_allocations ≡ inc64 rob.total_allocations
  pub valid : IsValid rob'

module _ {rob : RobDistributor} (v : IsValid rob) (rip start micro_ops : ℕ) where
  abbrev pub entry_for : ℕ → RobEntry
  entry_for b = new_entry rob rip start micro_ops b

  abbrev pub after : ℕ → RobDistributor
  after b = record rob {
    banks = update rob.banks b (push_entry (rob.banks b) (entry_for b));
    next_alloc_bank = (b + 1) % rob_banks;
    total_allocations = inc64 rob.total_allocations;
  }

  pub after-Allocates :
      (b : ℕ)
      → FirstRoom (bank_has_room rob.banks) rob.next_alloc_bank b
      → Allocates rob (entry_for b) b (after b)
  after-Allocates b first =
      let b_in : b < rob_banks = omega (arith, first.place) in
      let bank = v.each b b_in in
      let pushed = push_entry-IsBank (entry_for b) bank (ltb→lt _ _ first.passes) refl refl refl in
      let tail_at = bank.ring.tail_at in
      record {
        first = first;
        vacant = ground (arith, bank.ring.dead (rob.banks b).count, first.passes);
        appended = ground (
          arith,
          contents-push_entry (rob.banks b) bank.ring (entry_for b) (ltb→lt _ _ first.passes),
        );
        others = λ c h. ground arith;
        counted = refl;
        valid = record { next_in = omega arith; each = λ c hc. ground (arith, v.each c, pushed) };
      }

  abbrev pub stalled : RobDistributor
  stalled = record rob { total_stalls = inc64 rob.total_stalls }

  abbrev pub Outcome : Option AllocateReply → Type 0
  Outcome reply =
      ((b : ℕ) × (rob' : RobDistributor) × (reply
          ≡ some (success, some (b, (rob.banks b).tail), some rob'))
        × Allocates rob (entry_for b) b rob')
      ⊎ (((b : ℕ) → b < rob_banks → bank_has_room rob.banks b ≡ false)
          × (reply ≡ some (out_of_resources, none, some stalled)))

  finish_allocate-Outcome :
      (s : BankSearch)
      → Finds (bank_has_room rob.banks) rob.next_alloc_bank s
      → Outcome (finish_allocate rob rip start micro_ops s)
  finish_allocate-Outcome (found b) first = inl (b, after b, refl, after-Allocates b first)
  finish_allocate-Outcome all_full full = inr (full, refl)
  finish_allocate-Outcome unfinished h = absurd h

  -- RobAllocateEntry on a valid distributor returns: either it places the entry at the tail of the
  -- first bank with room in cyclic order, on a free slot and behind that bank's entries, or all
  -- the banks are full and only the stall counter moves.
  pub allocate_entry_lem : Outcome (allocate_entry (some rob) rip start micro_ops)
  unfolding allocate_entry
  allocate_entry_lem =
      finish_allocate-Outcome _
        (find_bank_total (bank_has_room rob.banks) rob.next_alloc_bank v.next_in)
