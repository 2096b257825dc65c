-- ===== src/MacroFusion/Buffer.antt =====
-- The fusion buffers: their bounds, what a lookup finds, and what the analysis counts.
use bemi_bios.Prelude.{
  ℕ, ◌^◌, ◌≤◌, ◌<◌, ◌≡◌, inl, inr, refl, sym, ◌∙◌, true, false, inc64, arith, Bool-cases,
}
use bemi_bios.Efi.{success, unsupported}
use bemi_bios.MacroFusion.{
  Fusion, Limits, get_type, is_fusable, Offer, add_pair, add_op, succeed, try_fuse,
}
use bemi_bios.MacroFusion.Kinds.{fuses, is_fusable-get_type}

-- The arrays are never overrun, and each row below the counts is a fusion of a known kind.
abbrev pub IsValid : Limits → Fusion → Type 0
IsValid l s =
    (s.pair_count ≤ l.max_pairs)
    × (s.op_count ≤ l.max_ops)
    × ((i : ℕ) → i < s.pair_count → (fuses (s.pairs i).kind ≡ true) × ((s.pairs i).fused ≡ true))
    × ((i : ℕ) → i < s.op_count → (s.ops i).fused ≡ true)

add_pair-IsValid :
    (l : Limits) (s : Fusion) (o : Offer)
    → l.max_pairs < 2 ^ 32
    → fuses (get_type o.opcode1 o.opcode2 o.extra) ≡ true
    → IsValid l s
    → IsValid l (add_pair l s o)
unfolding add_pair
add_pair-IsValid l s o small kind (pairs, ops, known, fused) = (
  ground arith,
  ground arith,
  λ i lt. (ground (arith, known i), ground (arith, known i)),
  λ i lt. ground (arith, fused i),
)

add_op-IsValid :
    (l : Limits) (s : Fusion) (o : Offer)
    → l.max_ops < 2 ^ 32
    → IsValid l s
    → IsValid l (add_op l s o)
unfolding add_op
add_op-IsValid l s o small (pairs, ops, known, fused) = (
  ground arith,
  ground arith,
  λ i lt. (ground (arith, known i), ground (arith, known i)),
  λ i lt. ground (arith, fused i),
)

abbrev pub Fits : Limits → Type 0
Fits l = (l.max_pairs < 2 ^ 32) × (l.max_ops < 2 ^ 32)

abbrev pub attempt : Fusion → Fusion
attempt s = record s { attempts = inc64 s.attempts }

try_fuse-refused :
    (l : Limits) (s : Fusion) (o : Offer)
    → is_fusable o.opcode1 o.opcode2 o.extra ≡ false
    → try_fuse l s o ≡ (unsupported, attempt s)
try_fuse-refused l s o e = unfold try_fuse in rw e refl

pub try_fuse-done :
    (l : Limits) (s : Fusion) (o : Offer)
    → is_fusable o.opcode1 o.opcode2 o.extra ≡ true
    → try_fuse l s o ≡ (success, succeed (add_op l (add_pair l (attempt s) o) o))
try_fuse-done l s o e = unfold try_fuse in rw e refl

-- Whatever pair is offered, to a version whose sizes fit 32 bits, the buffers stay within their
-- arrays and hold fusions only.
pub try_fuse-IsValid :
    (l : Limits) (s : Fusion) (o : Offer) → Fits l → IsValid l s → IsValid l (try_fuse l s o).1
try_fuse-IsValid l s o (small_pairs, small_ops) valid =
    elim (Bool-cases (is_fusable o.opcode1 o.opcode2 o.extra)) [
      | inr e ↦ rw (try_fuse-refused l s o e) valid
      | inl e ↦
          let kind = sym (is_fusable-get_type o.opcode1 o.opcode2 o.extra) ∙ e in
          rw (try_fuse-done l s o e) (
            add_op-IsValid l (add_pair l (attempt s) o) o small_ops
              (add_pair-IsValid l (attempt s) o small_pairs kind valid))
    ]
