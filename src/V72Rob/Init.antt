-- ===== src/V72Rob/Init.antt =====
-- V72RobDistributorInit: a full success gives a valid state, and what a failure leaves behind.
use bemi_bios.Prelude.{
  ℕ, zero, suc, ◌+◌, ◌≤◌, ◌<◌, ◌≡◌, inl, inr, refl, Bool, true, false, some, update, arith,
  Bool-cases,
}
use bemi_bios.Efi.{success, out_of_resources}
use bemi_bios.BankSearch.{rob_banks}
use bemi_bios.V72Rob.{
  V72State, null_deref, zero_ring, zero_meta, v72_rob_main_entries, v72_rob_ext_entries,
  get_active_count, init_ext, init_meta, distributor_init, allocate_entry, record_tag,
}
use bemi_bios.V72Rob.Ring.{IsRing, IsValid}

-- The banks i, ..., i + n - 1 are empty, the others and the main pointer as before.
record ExtReady (s : V72State) (i n : ℕ) (t : V72State) : Type 0 where
  ready : (j : ℕ) → i ≤ j → j < i + n → (t.ext_banks j ≡ some zero_ring) × (t.ext_counts j ≡ 0)
  before : (j : ℕ) → j < i → (t.ext_banks j ≡ s.ext_banks j) × (t.ext_counts j ≡ s.ext_counts j)
  main_kept : t.main_rob ≡ s.main_rob

init_ext-ready :
    (given : ℕ → Bool) (n i : ℕ) (s : V72State)
    → (init_ext given n i s).0 ≡ true
    → ExtReady s i n (init_ext given n i s).1
unfolding init_ext
init_ext-ready given zero i s h = ground arith
init_ext-ready given (suc n) i s h = elim (Bool-cases (given i)) [
  | inr e ↦ absurd (ground arith)
  | inl e ↦
      let placed = record s {
        ext_banks = update s.ext_banks i (some zero_ring);
        ext_counts = update s.ext_counts i 0;
      } in
      let ih = init_ext-ready given n (i + 1) placed (ground arith) in
      rw e (record {
        ready = λ j lo hi. ground (arith, ih.ready j, ih.before j);
        before = λ j lt. ground (arith, ih.before j);
        main_kept = ih.main_kept;
      })
]

zero_ring-IsMain : IsRing v72_rob_main_entries zero_ring
zero_ring-IsMain = omega arith

zero_ring-IsExt : IsRing v72_rob_ext_entries zero_ring
zero_ring-IsExt = omega arith

module _ (t : V72State) (main_at : t.main_rob ≡ some zero_ring) (main_zero : t.main_count ≡ 0)
    (meta_at : t.meta ≡ some zero_meta) (tail_zero : t.meta_tail ≡ 0)
    (next_zero : t.next_ext_bank ≡ 0)
    (ext_at : (j : ℕ)
      → j < rob_banks
      → (t.ext_banks j ≡ some zero_ring) × (t.ext_counts j ≡ 0)) where
  empty-IsValid : IsValid t
  empty-IsValid = record {
    main = record {
      ring = zero_ring;
      points = main_at;
      shape = zero_ring-IsMain;
      agrees = main_zero;
    };
    ext = λ i h. record {
      ring = zero_ring;
      points = (ext_at i h).0;
      shape = zero_ring-IsExt;
      agrees = (ext_at i h).1;
    };
    meta_at = (zero_meta, meta_at, λ tag h. inr (omega arith));
    tail_in = omega arith;
    next_in = omega arith;
  }

  empty_active : get_active_count t ≡ 0
  unfolding get_active_count
  empty_active =
      let e = λ (j : ℕ) (h : j < rob_banks). (ext_at j h).0 in
      ground (
        arith,
        main_at,
        e 0 (omega arith),
        e 1 (omega arith),
        e 2 (omega arith),
        e 3 (omega arith),
        e 4 (omega arith),
        e 5 (omega arith),
        e 6 (omega arith),
      )

-- Initialisation succeeds only when the main ring and the metadata were allocated, and then the
-- state is valid and no entry is active, whatever the globals held before.
pub distributor_init-IsValid_of_success :
    (main_given : Bool) (ext_given : ℕ → Bool) (meta_given : Bool) (s : V72State)
    → let (status, t) = distributor_init main_given ext_given meta_given s in
      (status ≡ success)
      → (main_given ≡ true) × (meta_given ≡ true) × IsValid t × (get_active_count t ≡ 0)
unfolding distributor_init init_meta
distributor_init-IsValid_of_success false ext_given meta_given s h = absurd (ground arith)
distributor_init-IsValid_of_success true ext_given false s h = absurd (ground arith)
distributor_init-IsValid_of_success true ext_given true s h =
    let start = record s { main_rob = some zero_ring } in
    let loop = init_ext ext_given rob_banks 0 start in
    let done : loop.0 ≡ true = ground arith in
    let r = init_ext-ready ext_given rob_banks 0 start done in
    let each = λ (j : ℕ) (h : j < rob_banks). r.ready j (omega arith) (omega arith) in
    rw done (
      refl,
      refl,
      empty-IsValid _ refl refl refl refl refl each,
      empty_active _ refl refl refl refl refl each,
    )

-- After an initialisation in which only the last pool allocation fails, an allocation passes the
-- test for NULL, and then dereferences the NULL metadata pointer.
pub allocate_after_failed_init :
    (s : V72State) (rip start micro_ops : ℕ)
    → s.main_count < v72_rob_main_entries
    → let (status, t) = distributor_init true (λ _. true) false s in
      (status ≡ out_of_resources) × (allocate_entry t rip start micro_ops ≡ null_deref)
unfolding distributor_init init_meta init_ext allocate_entry record_tag
allocate_after_failed_init s rip start micro_ops h = ground arith
