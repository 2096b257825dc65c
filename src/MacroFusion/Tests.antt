-- ===== src/MacroFusion/Tests.antt =====
-- Fusions of concrete instructions.
use bemi_bios.Prelude.{ℕ, ◌<◌, ◌≡◌, refl, true, none, some, arith}
use bemi_bios.MacroFusion.{
  cmp_jcc, Fusion, v71_limits, fusion_init, is_jcc, is_fusable, get_type, Offer, add_pair, new_op,
  add_op, try_fuse, find_op, lookup, Buffers, base_try_fuse, v71_try_fuse,
}
use bemi_bios.MacroFusion.Buffer.{IsValid}
use bemi_bios.MacroFusion.Lookup.{lookup-try_fuse}

-- cmp eax, imm32; je rel8
abbrev cmp_je : Offer
cmp_je = record {
  rip1 = 0x401000;
  opcode1 = 0x3D;
  length1 = 5;
  rip2 = 0x401005;
  opcode2 = 0x74;
  extra = 0;
  length2 = 2;
}

abbrev one_fused : Fusion
one_fused = (try_fuse v71_limits fusion_init cmp_je).1

cmp_je_kind : get_type 0x3D 0x74 0 ≡ cmp_jcc
unfolding get_type is_jcc
cmp_je_kind = refl

cmp_je_fuses : is_fusable 0x3D 0x74 0 ≡ true
unfolding is_fusable is_jcc
cmp_je_fuses = refl

one_counts : one_fused.op_count ≡ 1
unfolding try_fuse is_fusable is_jcc add_op add_pair
one_counts = refl

fusion_init-IsValid : IsValid v71_limits fusion_init
fusion_init-IsValid =
    (omega arith, omega arith, λ i lt. absurd (omega arith), λ i lt. absurd (omega arith))

abbrev buffers : Buffers
buffers = record { base = fusion_init; v71 = fusion_init }

lookup-try_fuse_example :
    let found = (lookup (base_try_fuse buffers cmp_je).1 0x401000).0 in
    (find_op fusion_init.ops 0x401000 0 0 ≡ none → found ≡ some (new_op (fusion_init.ops 0) cmp_je))
    × ((i : ℕ)
        → i < 0
        → find_op fusion_init.ops 0x401000 0 0 ≡ some i
        → found ≡ some (fusion_init.ops i))
    × ((other : Offer) (rip : ℕ)
        → (lookup (v71_try_fuse buffers other).1 rip).0 ≡ (lookup buffers rip).0)
lookup-try_fuse_example = lookup-try_fuse buffers cmp_je cmp_je_fuses (omega arith)
