-- ===== src/Rob/Active.antt =====
-- RobGetActiveCount: what it counts, and when RobAllocateEntry finds no room.
use bemi_bios.Prelude.{
  not_ltb→le, ℕ, zero, suc, ◌+◌, ◌≤◌, ◌<◌, ◌≡◌, ◌≢◌, ap, ◌⊎◌, inl, inr, arith, inc64, [], ◌∷◌,
  length, length-append, none, some,
}
use bemi_bios.Efi.{success, out_of_resources}
use bemi_bios.Rob.{
  RobEntry, RobBank, RobDistributor, allocate_entry, get_active_count, get_total_entries,
  sum_counts,
}
use bemi_bios.BankSearch.{rob_banks}
use bemi_bios.Rob.Valid.{IsValid, Allocates, allocate_entry_lem}
use bemi_bios.Rob.Order.{contents, length-contents}

-- The active count of a valid distributor is what its banks hold; it does not wrap.
pub get_active_count_lem :
    {rob : RobDistributor}
    → IsValid rob
    → (get_active_count (some rob)
        ≡ (rob.banks 0).count
          + (rob.banks 1).count
          + (rob.banks 2).count
          + (rob.banks 3).count
          + (rob.banks 4).count
          + (rob.banks 5).count
          + (rob.banks 6).count)
      × (get_active_count (some rob) ≤ get_total_entries)
unfolding get_active_count sum_counts get_total_entries
get_active_count_lem v =
    let in_range = λ (b : ℕ) (h : b < rob_banks). (v.each b h).ring.count_in in
    omega (
      arith,
      in_range 0 (omega arith),
      in_range 1 (omega arith),
      in_range 2 (omega arith),
      in_range 3 (omega arith),
      in_range 4 (omega arith),
      in_range 5 (omega arith),
      in_range 6 (omega arith),
    )

abbrev sum_seven : (ℕ → ℕ) → ℕ
sum_seven f = f 0 + f 1 + f 2 + f 3 + f 4 + f 5 + f 6

-- The seven counts after one of them has changed.
sum_seven_update :
    (f g : ℕ → ℕ) (b : ℕ)
    → b < rob_banks
    → ((c : ℕ) → c ≢ b → g c ≡ f c)
    → sum_seven g + f b ≡ sum_seven f + g b
sum_seven_update f g zero h s = ground (arith, s 1, s 2, s 3, s 4, s 5, s 6)
sum_seven_update f g (suc zero) h s = ground (arith, s 0, s 2, s 3, s 4, s 5, s 6)
sum_seven_update f g (suc (suc zero)) h s = ground (arith, s 0, s 1, s 3, s 4, s 5, s 6)
sum_seven_update f g (suc (suc (suc zero))) h s = ground (arith, s 0, s 1, s 2, s 4, s 5, s 6)
sum_seven_update f g (suc (suc (suc (suc zero)))) h s = ground (arith, s 0, s 1, s 2, s 3, s 5, s 6)
sum_seven_update f g (suc (suc (suc (suc (suc zero))))) h s =
    ground (arith, s 0, s 1, s 2, s 3, s 4, s 6)
sum_seven_update f g (suc (suc (suc (suc (suc (suc zero)))))) h s =
    ground (arith, s 0, s 1, s 2, s 3, s 4, s 5)
sum_seven_update f g (suc (suc (suc (suc (suc (suc (suc b))))))) h s = absurd (omega arith)

count_of_appended :
    {rob rob' : RobDistributor} {e : RobEntry} {b : ℕ}
    → Allocates rob e b rob'
    → (rob'.banks b).count ≡ (rob.banks b).count + 1
count_of_appended {rob} {rob'} {e} {b} done = omega (
  arith,
  ap length done.appended,
  length-append {0} (contents (rob.banks b)) (e ∷ []),
  length-contents (rob.banks b),
  length-contents (rob'.banks b),
)

active_of_Allocates :
    {rob rob' : RobDistributor} {e : RobEntry} {b : ℕ}
    → IsValid rob
    → Allocates rob e b rob'
    → get_active_count (some rob') ≡ get_active_count (some rob) + 1
active_of_Allocates {rob} {rob'} {e} {b} v done = omega (
  arith,
  done.first.place,
  count_of_appended done,
  get_active_count_lem v,
  get_active_count_lem done.valid,
  sum_seven_update (λ c. (rob.banks c).count) (λ c. (rob'.banks c).count) b
      (omega (arith, done.first.place)) (λ c h. ap (λ (bp : RobBank). bp.count) (done.others c h)),
)

-- RobAllocateEntry on a valid distributor succeeds and adds one active entry while fewer than 784
-- are active, and is refused exactly when 784 are.
pub allocate_entry-active :
    {rob : RobDistributor} (v : IsValid rob) (rip start micro_ops : ℕ)
    → ((ids : ℕ × ℕ) × (rob' : RobDistributor) × (allocate_entry (some rob) rip start micro_ops
          ≡ some (success, some ids, some rob'))
        × (get_active_count (some rob) < get_total_entries)
        × (get_active_count (some rob') ≡ get_active_count (some rob) + 1))
      ⊎ ((get_active_count (some rob) ≡ get_total_entries)
          × (allocate_entry (some rob) rip start micro_ops
              ≡ some (
                out_of_resources,
                none,
                some (record rob { total_stalls = inc64 rob.total_stalls }),
              )))
unfolding get_total_entries
allocate_entry-active {rob} v rip start micro_ops =
    elim (allocate_entry_lem v rip start micro_ops) [
      | inl (b, rob', e, done) ↦
          let grown = active_of_Allocates v done in
          inl (
            (b, (rob.banks b).tail),
            rob',
            e,
            omega (arith, grown, get_active_count_lem done.valid),
            grown,
          )
      | inr (full, e) ↦
          let at_most = λ (b : ℕ) (h : b < rob_banks). not_ltb→le _ _ (full b h) in
          inr (
            omega (
              arith,
              get_active_count_lem v,
              at_most 0 (omega arith),
              at_most 1 (omega arith),
              at_most 2 (omega arith),
              at_most 3 (omega arith),
              at_most 4 (omega arith),
              at_most 5 (omega arith),
              at_most 6 (omega arith),
            ),
            e,
          )
    ]
