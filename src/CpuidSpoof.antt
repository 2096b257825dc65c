-- ===== src/CpuidSpoof.antt =====
-- CPUID spoofing, hwcompat/cpuid/cpuidspoof.c: a table of answers that is filled from the processor's
-- own, and the handler that answers from it. AsmCpuid and AsmCpuidEx are the functions of `Source`.
-- The used part of gCpuidOverrides is a list in the order of the array. gVendorString, gIsIntel and
-- gIsAmd, which no code but a debug print reads, are left out.
pub mod Table
pub mod Answers
mod Tests
use bemi_bios.Prelude.{
  ℕ, zero, suc, ◌+◌, ◌-◌, ◌*◌, ◌/◌, ◌%◌, ◌^◌, Bool, true, false, ◌&&◌, ◌||◌, not, List, [], ◌∷◌,
  ◌++◌, Option, none, some, ltb, leb, ◌==◌, if◌then◌else◌, bit_or, length,
}
use bemi_bios.ApicShadow.{set_bit, clear_bit}
use bemi_bios.VmxExit.{Registers}

-- CPUID_OVERRIDE
pub record Override : Type 0 where
  pub leaf : ℕ
  pub subleaf : ℕ
  pub answer : Registers

pub record Source : Type 0 where
  pub cpuid : ℕ → Registers
  pub cpuid_ex : ℕ → ℕ → Registers

abbrev pub max_overrides : ℕ
max_overrides = 128

-- AddOverride: a full table stays as it is.
unfoldable pub add_override : List Override → Override → List Override
add_override table row = if ltb (length table) max_overrides then table ++ (row ∷ []) else table

-- AddOverride for each of a list of rows.
unfoldable pub add_rows : List Override → List Override → List Override
add_rows table [] = table
add_rows table (row ∷ rows) = add_rows (add_override table row) rows

abbrev pub row_of : ℕ → ℕ → Registers → Override
row_of leaf subleaf answer = record { leaf = leaf; subleaf = subleaf; answer = answer }

-- PopulateLeaf01
unfoldable pub leaf01_rows : Source → List Override
leaf01_rows p =
    let r = p.cpuid 1 in
    row_of 1 0 (record r { ecx = clear_bit (set_bit (set_bit r.ecx 5) 31) 15 }) ∷ []

-- The last level of cache that PopulateLeaf04 shows: 16 ways of 16384 sets of 64 bytes.
abbrev pub l3_ebx : ℕ
l3_ebx = 15 * 2 ^ 22 + 63

abbrev pub l3_ecx : ℕ
l3_ecx = 16383

-- The loop of PopulateLeaf04 from a subleaf on, with the number of rounds that are left.
unfoldable pub leaf04_rows : Source → ℕ → ℕ → List Override
leaf04_rows p subleaf zero = []
leaf04_rows p subleaf (suc n) =
    let r = p.cpuid_ex 4 subleaf in
    let rest = leaf04_rows p (subleaf + 1) n in
    let last : Registers = record { eax = 0x163; ebx = l3_ebx; ecx = l3_ecx; edx = 0 } in
    let shared : Registers = record r {
      eax = bit_or (r.eax / 32 * 32 + 3) 0x60;
      ebx = l3_ebx;
      ecx = l3_ecx;
    } in
    if r.eax % 32 == 0
    then (if subleaf == 3 then row_of 4 subleaf last ∷ [] else [])
    else row_of 4 subleaf (if r.eax % 32 == 3 then shared else r) ∷ rest

-- PopulateLeaf07
abbrev pub leaf07_rows : Source → List Override
leaf07_rows p = row_of 7 0 (p.cpuid_ex 7 0) ∷ []

-- The loop of PopulateLeaf0B
unfoldable pub leaf0b_rows : Source → ℕ → ℕ → List Override
leaf0b_rows p level zero = []
leaf0b_rows p level (suc n) =
    let r = p.cpuid_ex 0xB level in
    let rest = leaf0b_rows p (level + 1) n in
    row_of 0xB level r ∷ (if r.ecx / 2 ^ 8 % 2 ^ 8 == 0 then [] else rest)

abbrev pub all_zero : Registers → Bool
all_zero r = r.eax == 0 && (r.ebx == 0 && (r.ecx == 0 && r.edx == 0))

-- The loop of PopulateLeaf0D
unfoldable pub leaf0d_rows : Source → ℕ → ℕ → List Override
leaf0d_rows p subleaf zero = []
leaf0d_rows p subleaf (suc n) =
    let r = p.cpuid_ex 0xD subleaf in
    let rest = leaf0d_rows p (subleaf + 1) n in
    if ltb 0 subleaf && all_zero r then [] else row_of 0xD subleaf r ∷ rest

abbrev pub no_registers : Registers
no_registers = record { eax = 0; ebx = 0; ecx = 0; edx = 0 }

abbrev pub signature : ℕ
signature = 0x494D4542

-- PopulateHypervisorLeaves
unfoldable pub hypervisor_rows : List Override
hypervisor_rows =
    row_of 0x40000000 0
      (record { eax = 0x40000005; ebx = signature; ecx = signature; edx = signature })
    ∷ row_of 0x40000001 0 (record no_registers { eax = 0x10003 })
    ∷ row_of 0x40000002 0 no_registers
    ∷ row_of 0x40000003 0 no_registers
    ∷ row_of 0x40000004 0 no_registers
    ∷ row_of 0x40000005 0 no_registers
    ∷ []

-- The loop of PopulateExtendedLeaves; it exposes SVM.
unfoldable pub extended_rows : Source → ℕ → ℕ → List Override
extended_rows p leaf zero = []
extended_rows p leaf (suc n) =
    let r = p.cpuid leaf in
    let shown = if leaf == 0x80000001 then record r { ecx = set_bit r.ecx 2 } else r in
    row_of leaf 0 shown ∷ extended_rows p (leaf + 1) n

-- The loop of PopulateOtherLeaves
unfoldable pub other_rows : Source → ℕ → ℕ → List Override
other_rows p leaf zero = []
other_rows p leaf (suc n) =
    let rest = other_rows p (leaf + 1) n in
    if leaf == 4 || (leaf == 7 || (leaf == 0xB || leaf == 0xD))
    then rest
    else row_of leaf 0 (p.cpuid leaf) ∷ rest

-- What the populating functions add before the extended leaves.
unfoldable pub first_rows : Source → List Override
first_rows p =
    leaf01_rows p
    ++ (leaf04_rows p 0 5
        ++ (leaf07_rows p ++ (leaf0b_rows p 0 4 ++ (leaf0d_rows p 0 10 ++ hypervisor_rows))))

-- The table that CpuidSpoofInit fills, for the highest standard and extended leaf.
unfoldable pub filled_table : Source → ℕ → ℕ → List Override
filled_table p standard extended =
    add_rows
      (add_rows (add_rows [] (first_rows p)) (extended_rows p 0x80000000 (extended - 0x7FFFFFFF)))
      (other_rows p 2 (standard - 1))

-- CpuidSpoofInit; `none` when a highest leaf of 0xFFFFFFFF makes `leaf <= max` hold for ever.
unfoldable pub spoof_init : Source → Option (List Override)
spoof_init p =
    let standard = (p.cpuid 0).eax in
    let extended = (p.cpuid 0x80000000).eax in
    if extended == 0xFFFFFFFF || standard == 0xFFFFFFFF
    then none
    else some (filled_table p standard extended)

-- The search of CpuidSpoofHandler.
unfoldable pub find_override : List Override → ℕ → ℕ → Option Registers
find_override [] leaf subleaf = none
find_override (row ∷ rows) leaf subleaf =
    let rest = find_override rows leaf subleaf in
    if row.leaf == leaf && row.subleaf == subleaf then some row.answer else rest

-- The leaves that are answered with zeros when they are not in the table.
abbrev pub hidden : ℕ → Bool
hidden leaf =
    (leb 0x40000001 leaf && leb leaf 0x4FFFFFFF)
    || (leb 0x80000009 leaf && (leb leaf 0x80000018 && not (leaf == 0x8000000A)))

-- CpuidSpoofHandler
unfoldable pub spoof_handler : Source → List Override → ℕ → ℕ → Registers
spoof_handler p table leaf subleaf = elim (find_override table leaf subleaf) [
  | some answer ↦ answer
  | none ↦ if hidden leaf then no_registers else p.cpuid_ex leaf subleaf
]
