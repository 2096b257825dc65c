-- ===== src/MacroFusion.antt =====
-- The software macro-op fusion of performance/fusion/macroopfusion.c: which pairs of instructions
-- fuse, the two fusion buffers, and the analysis of a region.
pub mod Kinds
pub mod Buffer
pub mod Lookup
mod Tests
use bemi_bios.Prelude.{
  ℕ, zero, suc, ◌+◌, ◌-◌, ◌*◌, ◌/◌, ◌%◌, ◌^◌, Bool, true, false, ◌&&◌, ◌||◌, not, Option, none,
  some, ltb, leb, ◌==◌, if◌then◌else◌, Array, update, inc32, inc64, add64,
}
use bemi_bios.Efi.{EfiStatus, success, unsupported}

pub data FusionType : Type 0 where
  cmp_jcc : FusionType
  test_jcc : FusionType
  dec_jcc : FusionType
  add_lea : FusionType
  mov_cmp : FusionType
  no_fusion : FusionType

pub record FusionPair : Type 0 where
  pub rip : ℕ
  pub opcode1 : ℕ
  pub opcode2 : ℕ
  pub opcode3 : ℕ
  pub bytes : ℕ
  pub kind : FusionType
  pub fused : Bool

pub record FusedMacroOp : Type 0 where
  pub rip : ℕ
  pub target_rip : ℕ
  pub condition : ℕ
  pub comparison_type : ℕ
  pub comparison_value : ℕ
  pub execution_count : ℕ
  pub fused : Bool

-- The globals of one version: gFusionPairs and the rest, or those whose names end in V71.
pub record Fusion : Type 0 where
  pub pairs : Array FusionPair
  pub pair_count : ℕ
  pub ops : Array FusedMacroOp
  pub op_count : ℕ
  pub attempts : ℕ
  pub successes : ℕ

-- V71_FUSION_TRACKING without FusionRate, a double.
pub record Tracking : Type 0 where
  pub workload_id : ℕ
  pub total_instructions : ℕ
  pub fused_ops : ℕ
  pub cache_hits : ℕ
  pub dbo_patterns_detected : Bool

-- The sizes of the arrays of a version.
pub record Limits : Type 0 where
  pub max_pairs : ℕ
  pub max_ops : ℕ

abbrev pub base_limits : Limits
base_limits = record { max_pairs = 32; max_ops = 512 }

abbrev pub v71_limits : Limits
v71_limits = record { max_pairs = 64; max_ops = 1024 }

abbrev pub zero_op : FusedMacroOp
zero_op = record {
  rip = 0;
  target_rip = 0;
  condition = 0;
  comparison_type = 0;
  comparison_value = 0;
  execution_count = 0;
  fused = false;
}

-- MacroOpFusionInit, and MacroOpFusionV71Init for the other globals.
abbrev pub fusion_init : Fusion
fusion_init = record {
  pairs = λ _. record {
    rip = 0;
    opcode1 = 0;
    opcode2 = 0;
    opcode3 = 0;
    bytes = 0;
    kind = cmp_jcc;
    fused = false;
  };
  pair_count = 0;
  ops = λ _. zero_op;
  op_count = 0;
  attempts = 0;
  successes = 0;
}

abbrev pub tracking_init : Tracking
tracking_init = record {
  workload_id = 0;
  total_instructions = 0;
  fused_ops = 0;
  cache_hits = 0;
  dbo_patterns_detected = false;
}

abbrev pub within : ℕ → ℕ → ℕ → Bool
within low high x = leb low x && leb x high

-- IsJcc
unfoldable pub is_jcc : ℕ → ℕ → Bool
is_jcc opcode extra =
    if within 0x70 0x7F opcode then true else opcode == 0x0F && within 0x80 0x8F extra

abbrev pub is_cmp : ℕ → Bool
is_cmp op = within 0x38 0x3D op || within 0x80 0x83 op

abbrev pub is_test : ℕ → Bool
is_test op = op == 0x84 || op == 0x85 || op == 0xA8 || op == 0xA9 || op == 0xF6 || op == 0xF7

abbrev pub is_dec : ℕ → Bool
is_dec op = op == 0xFE || op == 0xFF

abbrev pub is_lea_add : ℕ → ℕ → Bool
is_lea_add op1 op2 = op1 == 0x8D && (within 0x00 0x05 op2 || within 0x80 0x83 op2)

abbrev pub is_mov : ℕ → Bool
is_mov op = within 0x88 0x8B op || op == 0xC6 || op == 0xC7

-- MacroOpFusionIsFusable
unfoldable pub is_fusable : ℕ → ℕ → ℕ → Bool
is_fusable op1 op2 extra =
    let rest =
      if is_lea_add op1 op2
      then true
      else if is_mov op1
      then (if is_cmp op2 then true else false)
      else false in
    if is_jcc op2 extra
    then if is_cmp op1
      then true
      else if is_test op1
      then true
      else if is_dec op1
      then true
      else rest
    else rest

-- MacroOpFusionGetType
unfoldable pub get_type : ℕ → ℕ → ℕ → FusionType
get_type op1 op2 extra =
    let rest =
      if is_lea_add op1 op2
      then add_lea
      else if is_mov op1
      then (if is_cmp op2 then mov_cmp else no_fusion)
      else no_fusion in
    if is_jcc op2 extra
    then if is_cmp op1
      then cmp_jcc
      else if is_test op1
      then test_jcc
      else if is_dec op1
      then dec_jcc
      else rest
    else rest

-- The two instructions that are offered.
pub record Offer : Type 0 where
  pub rip1 : ℕ
  pub opcode1 : ℕ
  pub length1 : ℕ
  pub rip2 : ℕ
  pub opcode2 : ℕ
  pub extra : ℕ
  pub length2 : ℕ

abbrev pub new_pair : Offer → FusionPair
new_pair o = record {
  rip = o.rip1;
  opcode1 = o.opcode1;
  opcode2 = o.opcode2;
  opcode3 = o.extra;
  bytes = (o.length1 + o.length2) % 256;
  kind = get_type o.opcode1 o.opcode2 o.extra;
  fused = true;
}

unfoldable pub add_pair : Limits → Fusion → Offer → Fusion
add_pair l s o =
    if ltb s.pair_count l.max_pairs
    then record s {
      pairs = update s.pairs s.pair_count (new_pair o);
      pair_count = inc32 s.pair_count;
    }
    else s

-- The fields that a fusion writes; the others stay as they are.
abbrev pub new_op : FusedMacroOp → Offer → FusedMacroOp
new_op old o = record old {
  rip = o.rip1;
  target_rip = add64 o.rip2 o.length2;
  comparison_type = o.opcode1;
  fused = true;
}

unfoldable pub add_op : Limits → Fusion → Offer → Fusion
add_op l s o =
    if ltb s.op_count l.max_ops
    then record s {
      ops = update s.ops s.op_count (new_op (s.ops s.op_count) o);
      op_count = inc32 s.op_count;
    }
    else s

abbrev pub succeed : Fusion → Fusion
succeed s = record s { successes = inc64 s.successes }

-- MacroOpFusionTryFuse with base_limits, MacroOpFusionV71TryFuse with v71_limits.
unfoldable pub try_fuse : Limits → Fusion → Offer → EfiStatus × Fusion
try_fuse l s o =
    let s' = record s { attempts = inc64 s.attempts } in
    if not (is_fusable o.opcode1 o.opcode2 o.extra)
    then (unsupported, s')
    else (success, succeed (add_op l (add_pair l s' o) o))

-- The loop of MacroOpFusionDboAnalyze from i on; `left` is what InstructionCount leaves of the scan.
unfoldable pub count_patterns : Fusion → ℕ → ℕ → ℕ → ℕ
count_patterns s zero i detected = detected
count_patterns s (suc left) i detected =
    let next = if (s.ops i).fused && ltb 0 s.pair_count then inc32 detected else detected in
    let rest = count_patterns s left (i + 1) next in
    if ltb (i + 1) s.op_count then rest else detected

-- MacroOpFusionDboAnalyze
unfoldable pub dbo_analyze : Fusion → Tracking → ℕ → ℕ → Tracking
dbo_analyze s t start instructions =
    let detected = count_patterns s instructions 0 0 in
    record {
      workload_id = start;
      total_instructions = instructions;
      fused_ops = detected;
      cache_hits = s.successes;
      dbo_patterns_detected = if ltb 0 detected then true else t.dbo_patterns_detected;
    }

-- The loop of MacroOpFusionLookup over the slots i, i + 1, ...
unfoldable pub find_op : Array FusedMacroOp → ℕ → ℕ → ℕ → Option ℕ
find_op ops rip zero i = none
find_op ops rip (suc rounds) i =
    let rest = find_op ops rip rounds (i + 1) in
    if (ops i).rip == rip && (ops i).fused then some i else rest

-- The buffers of the two versions: gFusionBuffer and gFusionBufferV71 with their counters.
pub record Buffers : Type 0 where
  pub base : Fusion
  pub v71 : Fusion

-- MacroOpFusionTryFuse and MacroOpFusionV71TryFuse
unfoldable pub base_try_fuse : Buffers → Offer → EfiStatus × Buffers
base_try_fuse b o =
    let (status, s) = try_fuse base_limits b.base o in (status, record b { base = s })

unfoldable pub v71_try_fuse : Buffers → Offer → EfiStatus × Buffers
v71_try_fuse b o = let (status, s) = try_fuse v71_limits b.v71 o in (status, record b { v71 = s })

-- MacroOpFusionLookup, which searches gFusionBuffer only.
unfoldable pub lookup : Buffers → ℕ → Option FusedMacroOp × Buffers
lookup b rip =
    let s = b.base in
    elim (find_op s.ops rip s.op_count 0) [
      | none ↦ (none, b)
      | some i ↦ (
        some (s.ops i),
        record b {
          base = record s {
            ops =
                update s.ops i
                  (record (s.ops i) { execution_count = inc32 (s.ops i).execution_count });
          };
        },
      )
    ]
