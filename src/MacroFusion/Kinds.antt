-- ===== src/MacroFusion/Kinds.antt =====
-- The test for a fusable pair and the kind of its fusion.
use bemi_bios.Prelude.{ℕ, ◌≡◌, Bool, true, false, if◌then◌else◌, arith}
use bemi_bios.MacroFusion.{
  FusionType, cmp_jcc, test_jcc, dec_jcc, add_lea, mov_cmp, no_fusion, is_jcc, is_cmp, is_test,
  is_dec, is_lea_add, is_mov, is_fusable, get_type,
}

abbrev pub fuses : FusionType → Bool
fuses cmp_jcc = true
fuses test_jcc = true
fuses dec_jcc = true
fuses add_lea = true
fuses mov_cmp = true
fuses no_fusion = false

-- Both functions choose by the same seven tests.
choose_alike :
    (jcc cmp test dec lea mov mov_arg : Bool)
    → (let rest = if lea then true else if mov then (if mov_arg then true else false) else false in
        if jcc
        then if cmp then true else if test then true else if dec then true else rest
        else rest)
      ≡ fuses (
          let rest =
            if lea
            then add_lea
            else if mov
            then (if mov_arg then mov_cmp else no_fusion)
            else no_fusion in
          if jcc
          then if cmp then cmp_jcc else if test then test_jcc else if dec then dec_jcc else rest
          else rest)
choose_alike jcc cmp test dec lea mov mov_arg = ground arith

-- A pair is fusable exactly if its fusion type is not FusionTypeNone, for all opcodes.
pub is_fusable-get_type :
    (op1 op2 extra : ℕ) → is_fusable op1 op2 extra ≡ fuses (get_type op1 op2 extra)
unfolding is_fusable get_type
is_fusable-get_type op1 op2 extra =
    choose_alike (is_jcc op2 extra) (is_cmp op1) (is_test op1) (is_dec op1) (is_lea_add op1 op2)
      (is_mov op1) (is_cmp op2)
