-- ===== src/BankSearch/Cyclic.antt =====
-- The search ends within seven rounds, at the first bank in cyclic order that passes the test.
use bemi_bios.Prelude.{
  ℕ, zero, suc, ◌+◌, ◌-◌, ◌%◌, ◌<◌, ◌≡◌, refl, Bool, true, false, ◌==◌, inl, inr, Bool-cases, arith,
}
use bemi_bios.BankSearch.{rob_banks, BankSearch, found, all_full, unfinished, find_bank}

-- The i-th bank that a search from `start` looks at.
abbrev pub bank_at : ℕ → ℕ → ℕ
bank_at start i = (start + i) % rob_banks

module _ (room : ℕ → Bool) where
  -- `b` passes, and the banks looked at before it do not.
  pub record FirstRoom (start : ℕ) (b : ℕ) : Type 0 where
    pub skipped : ℕ
    pub few : skipped < rob_banks
    pub place : b ≡ bank_at start skipped
    pub passes : room b ≡ true
    pub before : (i : ℕ) → i < skipped → room (bank_at start i) ≡ false

  abbrev pub Finds : ℕ → BankSearch → Type 0
  Finds start (found b) = FirstRoom start b
  Finds start all_full = (b : ℕ) → b < rob_banks → room b ≡ false
  Finds start unfinished = ⊥

  SeenFull : ℕ → ℕ → Type 0
  SeenFull start k = (i : ℕ) → i < k → room (bank_at start i) ≡ false

  all_seen :
      (start : ℕ)
      → start < rob_banks
      → SeenFull start rob_banks
      → (b : ℕ) → b < rob_banks
      → room b ≡ false
  unfolding SeenFull
  all_seen start hs full b hb =
      let i = (b + rob_banks - start) % rob_banks in
      let e : bank_at start i ≡ b = omega arith in ground (arith, full i, e)

  see_one :
      (start k : ℕ) → SeenFull start k → room (bank_at start k) ≡ false → SeenFull start (k + 1)
  unfolding SeenFull
  see_one start k seen h i hi = elim (Bool-cases (i == k)) [
    | inl e ↦ ground arith
    | inr e ↦ ground (arith, seen i)
  ]

  find_bank_from :
      (start : ℕ)
      → start < rob_banks
      → (fuel k : ℕ) → k + suc fuel ≡ rob_banks
      → SeenFull start k
      → Finds start (find_bank room (suc fuel) start (bank_at start k))
  unfolding find_bank
  find_bank_from start hs zero k e seen = elim (Bool-cases (room (bank_at start k))) [
    | inl h ↦ rw h (record {
      skipped = k;
      few = omega arith;
      place = refl;
      passes = h;
      before = unfold SeenFull in seen;
    })
    | inr h ↦
        let last : ((bank_at start k + 1) % rob_banks == start) ≡ true = ground arith in
        let k_last : k + 1 ≡ rob_banks = omega arith in
        rw (h, last) (all_seen start hs (rw k_last at (see_one start k seen h)))
  ]
  find_bank_from start hs (suc fuel) k e seen = elim (Bool-cases (room (bank_at start k))) [
    | inl h ↦ rw h (record {
      skipped = k;
      few = omega arith;
      place = refl;
      passes = h;
      before = unfold SeenFull in seen;
    })
    | inr h ↦
        let more : ((bank_at start k + 1) % rob_banks == start) ≡ false = ground arith in
        let next : (bank_at start k + 1) % rob_banks ≡ bank_at start (k + 1) = omega arith in
        rw (h, more, next)
          (find_bank_from start hs fuel (k + 1) (omega arith) (see_one start k seen h))
  ]

-- The search from a bank below 7 ends within seven rounds: it finds the first bank in cyclic order
-- that passes the test, or no bank passes it.
pub find_bank_total :
    (room : ℕ → Bool) (start : ℕ)
    → start < rob_banks
    → Finds room start (find_bank room rob_banks start start)
find_bank_total room start h =
    let e : bank_at start 0 ≡ start = omega arith in
    rw e at (find_bank_from room start h 6 0 refl (unfold SeenFull in λ i hi. elim hi [ ]))
