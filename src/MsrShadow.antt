-- ===== src/MsrShadow.antt =====
-- The MSR shadow table of hwcompat/msr/msrshadow.c. AsmReadMsr64 is the parameter `hw`, the value
-- that the processor holds for each index; the calls of AsmWriteMsr64 are collected in a log.
pub mod Find
pub mod Init
pub mod Access
mod Tests
use bemi_bios.Prelude.{
  ℕ, zero, suc, ◌+◌, ◌*◌, ◌%◌, Bool, true, false, ◌&&◌, Option, none, some, ltb, ◌==◌,
  if◌then◌else◌, Array, update, List, [], ◌∷◌,
}
use bemi_bios.Efi.{EfiStatus, success, access_denied}

abbrev pub max_shadow_msrs : ℕ
max_shadow_msrs = 256

pub record MsrShadowEntry : Type 0 where
  pub index : ℕ
  pub value : ℕ
  pub is_shadowed : Bool
  pub is_read_only : Bool
  pub passthrough_on_write : Bool

pub record MsrShadow : Type 0 where
  pub table : Array MsrShadowEntry
  pub count : ℕ
  pub writes : List (ℕ × ℕ)

-- The loop of FindShadowMsr, which returns the position in place of the pointer.
pub find_from : Array MsrShadowEntry → ℕ → ℕ → ℕ → Option ℕ
find_from table zero i index = none
find_from table (suc rounds) i index =
    let rest = find_from table rounds (i + 1) index in
    if (table i).index == index && (table i).is_shadowed then some i else rest

abbrev pub find_shadow_msr : MsrShadow → ℕ → Option ℕ
find_shadow_msr s index = find_from s.table s.count 0 index

pub add_shadow_msr : MsrShadow → ℕ → ℕ → Bool → Bool → MsrShadow
add_shadow_msr s index value read_only passthrough =
    if ltb s.count max_shadow_msrs
    then record s {
      table = update s.table s.count (record {
        index = index;
        value = value;
        is_shadowed = true;
        is_read_only = read_only;
        passthrough_on_write = passthrough;
      });
      count = s.count + 1;
    }
    else s

abbrev pub msr_tsc : ℕ
msr_tsc = 0x10

abbrev pub msr_mtrr_cap : ℕ
msr_mtrr_cap = 0xFE

abbrev pub msr_mcg_cap : ℕ
msr_mcg_cap = 0x179

-- A row of MsrShadowInit: the index, whether the value starts as zero instead of the processor's,
-- whether it is read-only, and whether writes pass through.
abbrev pub Row : Type 0
Row = ℕ × Bool × Bool × Bool

-- The calls of AddShadowMsr up to MSR_IA32_MTRR_CAP, in order.
abbrev pub fixed_rows : List Row
fixed_rows =
    (msr_tsc, true, false, false)
    ∷ (0x3B, true, false, true)
    ∷ (0x1B, false, false, true)
    ∷ (0x174, false, false, true)
    ∷ (0x175, false, false, true)
    ∷ (0x176, false, false, true)
    ∷ (0xC0000081, false, false, true)
    ∷ (0xC0000082, false, false, true)
    ∷ (0xC0000083, false, false, true)
    ∷ (0xC0000084, false, false, true)
    ∷ (0xC0000100, false, false, true)
    ∷ (0xC0000101, false, false, true)
    ∷ (0xC0000102, false, false, true)
    ∷ (0xC0000080, false, false, true)
    ∷ (msr_mcg_cap, false, true, false)
    ∷ (0x17A, true, false, true)
    ∷ (0x17B, false, false, true)
    ∷ (0x277, false, false, true)
    ∷ (0x2FF, false, false, true)
    ∷ (msr_mtrr_cap, false, true, false)
    ∷ []

module _ (hw : ℕ → ℕ) where
  add_rows : MsrShadow → List Row → MsrShadow
  unfolding add_shadow_msr
  add_rows s [] = s
  add_rows s ((index, starts_zero, read_only, passthrough) ∷ rows) =
      add_rows (add_shadow_msr s index (if starts_zero then 0 else hw index) read_only passthrough)
        rows

  -- The loop over the variable-range MTRRs: a base and a mask for each.
  add_mtrrs : ℕ → ℕ → MsrShadow → MsrShadow
  unfolding add_shadow_msr
  add_mtrrs zero i s = s
  add_mtrrs (suc rounds) i s =
      let base = 0x200 + i * 2 in
      let mask = 0x201 + i * 2 in
      add_mtrrs rounds (i + 1)
        (add_shadow_msr (add_shadow_msr s base (hw base) false true) mask (hw mask) false true)

  -- The low byte of MSR_IA32_MTRR_CAP, at most ten.
  mtrr_rounds : ℕ
  mtrr_rounds = let n = hw msr_mtrr_cap % 256 in if ltb n 10 then n else 10

  pub init : MsrShadow → MsrShadow
  unfolding add_rows
  init s = add_mtrrs mtrr_rounds 0 (add_rows (record s { count = 0 }) fixed_rows)

  abbrev read_at : MsrShadow → ℕ → Option ℕ → ℕ
  read_at s index none = hw index
  read_at s index (some i) = (s.table i).value

  -- MsrShadowRead: the status and what goes through Value.
  pub read : MsrShadow → ℕ → EfiStatus × ℕ
  read s index = (success, read_at s index (find_shadow_msr s index))

abbrev write_at : MsrShadow → ℕ → ℕ → Option ℕ → EfiStatus × MsrShadow
write_at s index value none = (success, record s { writes = (index, value) ∷ s.writes })
write_at s index value (some i) =
    let entry = s.table i in
    let stored = update s.table i (record entry { value = value }) in
    if entry.is_read_only then (access_denied, s) else (
      success,
      record s {
        table = stored;
        writes = if entry.passthrough_on_write then (index, value) ∷ s.writes else s.writes;
      },
    )

-- MsrShadowWrite.
pub write : MsrShadow → ℕ → ℕ → EfiStatus × MsrShadow
write s index value = write_at s index value (find_shadow_msr s index)

pub is_pass_through : MsrShadow → ℕ → Bool
is_pass_through s index = elim (find_shadow_msr s index) [ none ↦ true | some i ↦ false ]
