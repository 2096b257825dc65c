-- ===== src/Tage/Tests.antt =====
-- The predictor at concrete branches.
use bemi_bios.Prelude.{ℕ, ◌≡◌, refl, true, false, none, some, inc64}
use bemi_bios.Tage.{
  tage_table_count, Tage, predictor_init, tage_index, tage_tag, entry_of, table_hits, find_table,
  btb_hits, predict, same_direction, train, find_victim, allocate, learn, tage_update,
}
use bemi_bios.Tage.Training.{Known, trained, predict-update_target, predict-update}
use bemi_bios.Tage.Hysteresis.{update_counts-Known}

abbrev branch : ℕ
branch = 0x401000

abbrev once : Tage
once = tage_update predictor_init branch true 0x402000

once-Known : Known once branch 0
unfolding tage_update learn allocate train find_table find_victim table_hits tage_index tage_tag
once-Known = refl

unknown_at_first : find_table predictor_init branch 4 ≡ none
unfolding find_table table_hits tage_index tage_tag
unknown_at_first = refl

once_useful : (entry_of once branch 0).useful ≡ 0
unfolding tage_update learn allocate train find_table find_victim table_hits tage_index tage_tag
once_useful = refl

predict-once : predict once branch ≡ (true, 0x402000)
unfolding predict btb_hits tage_update learn allocate train find_table find_victim table_hits
    tage_index tage_tag
predict-once = refl

predict-update_target_example : (predict once branch).1 ≡ 0x402000
predict-update_target_example = predict-update_target predictor_init branch 0x402000 true

predict-update_example :
    ((t : ℕ)
      → Known once branch t
      → (predict (tage_update once branch false 0x402000) branch).0
        ≡ (trained (entry_of once branch t) false).taken)
    × (find_table once branch tage_table_count ≡ none
        → ((t : ℕ)
            → find_victim once branch tage_table_count 0 ≡ some t
            → (predict (tage_update once branch false 0x402000) branch).0 ≡ false)
          × (find_victim once branch tage_table_count 0 ≡ none
              → (predict (tage_update once branch false 0x402000) branch).0 ≡ true))
predict-update_example = predict-update once branch 0x402000 false

update_counts-Known_example :
    let s' = tage_update once branch false 0x402000 in
    (s'.predictions ≡ inc64 once.predictions)
    × (same_direction (predict once branch).0 false ≡ true
        → (s'.correct ≡ inc64 once.correct) × (s'.mispredictions ≡ once.mispredictions))
    × (same_direction (predict once branch).0 false ≡ false
        → (s'.correct ≡ once.correct) × (s'.mispredictions ≡ inc64 once.mispredictions))
update_counts-Known_example = update_counts-Known once branch 0 0x402000 false once-Known
