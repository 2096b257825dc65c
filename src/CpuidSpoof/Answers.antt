-- ===== src/CpuidSpoof/Answers.antt =====
-- What CpuidSpoofHandler answers after CpuidSpoofInit.
use bemi_bios.Prelude.{
  ℕ, zero, suc, ◌+◌, ◌-◌, ◌≤◌, ◌<◌, ◌≡◌, refl, sym, ap, subst, ◌∙◌, true, false, List, [], ◌∷◌,
  ◌++◌, none, some, arith, length, length-append,
}
use bemi_bios.ApicShadow.{bit_is_set, set_bit, clear_bit}
use bemi_bios.VmxExit.{Registers}
use bemi_bios.CpuidSpoof.{
  Override, Source, max_overrides, add_rows, row_of, leaf01_rows, leaf04_rows, leaf07_rows,
  leaf0b_rows, leaf0d_rows, hypervisor_rows, signature, extended_rows, other_rows, first_rows,
  filled_table, spoof_init, find_override, spoof_handler, hidden,
}
use bemi_bios.CpuidSpoof.Table.{
  add_rows-bound, add_rows-append, find-append_none, find-add_rows, find-add_rows-none,
}

-- Rows for one leaf other than the extended ones and the hypervisor's, at most n of them.
unfoldable Rows : List Override → ℕ → Type 0
Rows rows n =
    (length rows ≤ n)
    × ((leaf subleaf : ℕ) → 0x40000000 ≤ leaf → find_override rows leaf subleaf ≡ none)

leaf04-Rows : (p : Source) (subleaf n : ℕ) → Rows (leaf04_rows p subleaf n) n
unfolding Rows leaf04_rows find_override
leaf04-Rows p subleaf zero = (omega arith, λ leaf sub h. refl)
leaf04-Rows p subleaf (suc n) =
    let (few, other) = leaf04-Rows p (subleaf + 1) n in
    (ground (arith, few), λ leaf sub h. ground (arith, other leaf sub h))

leaf0b-Rows : (p : Source) (level n : ℕ) → Rows (leaf0b_rows p level n) n
unfolding Rows leaf0b_rows find_override
leaf0b-Rows p level zero = (omega arith, λ leaf sub h. refl)
leaf0b-Rows p level (suc n) =
    let (few, other) = leaf0b-Rows p (level + 1) n in
    (ground (arith, few), λ leaf sub h. ground (arith, other leaf sub h))

leaf0d-Rows : (p : Source) (subleaf n : ℕ) → Rows (leaf0d_rows p subleaf n) n
unfolding Rows leaf0d_rows find_override
leaf0d-Rows p subleaf zero = (omega arith, λ leaf sub h. refl)
leaf0d-Rows p subleaf (suc n) =
    let (few, other) = leaf0d-Rows p (subleaf + 1) n in
    (ground (arith, few), λ leaf sub h. ground (arith, other leaf sub h))

Rows-append : (xs ys : List Override) (n m : ℕ) → Rows xs n → Rows ys m → Rows (xs ++ ys) (n + m)
unfolding Rows
Rows-append xs ys n m (few, other) (few', other') = (
  omega (arith, length-append xs ys, few, few'),
  λ leaf sub h. find-append_none xs ys leaf sub (other leaf sub h) ∙ other' leaf sub h,
)

leaf01-Rows : (p : Source) → Rows (leaf01_rows p) 1
unfolding Rows leaf01_rows find_override
leaf01-Rows p = (omega arith, λ leaf sub h. ground arith)

leaf07-Rows : (p : Source) → Rows (leaf07_rows p) 1
unfolding Rows find_override
leaf07-Rows p = (omega arith, λ leaf sub h. ground arith)

-- The rows before the hypervisor's own answer no leaf from 0x40000000 on.
find-first_rows :
    (p : Source) (leaf subleaf : ℕ)
    → 0x40000000 ≤ leaf
    → find_override (first_rows p) leaf subleaf ≡ find_override hypervisor_rows leaf subleaf
unfolding first_rows Rows
find-first_rows p leaf subleaf h =
    let a = (leaf01-Rows p).1 leaf subleaf h in
    let b = (leaf04-Rows p 0 5).1 leaf subleaf h in
    let c = (leaf07-Rows p).1 leaf subleaf h in
    let d = (leaf0b-Rows p 0 4).1 leaf subleaf h in
    let e = (leaf0d-Rows p 0 10).1 leaf subleaf h in
    find-append_none (leaf01_rows p) _ leaf subleaf a
    ∙ find-append_none (leaf04_rows p 0 5) _ leaf subleaf b
    ∙ find-append_none (leaf07_rows p) _ leaf subleaf c
    ∙ find-append_none (leaf0b_rows p 0 4) _ leaf subleaf d
    ∙ find-append_none (leaf0d_rows p 0 10) _ leaf subleaf e

length-first_rows : (p : Source) → length (first_rows p) ≤ 27
unfolding first_rows Rows hypervisor_rows
length-first_rows p =
    let x4 = leaf0d_rows p 0 10 ++ hypervisor_rows in
    let x3 = leaf0b_rows p 0 4 ++ x4 in
    let x2 = leaf07_rows p ++ x3 in
    let x1 = leaf04_rows p 0 5 ++ x2 in
    omega (
      arith,
      (leaf01-Rows p).0,
      (leaf04-Rows p 0 5).0,
      (leaf07-Rows p).0,
      (leaf0b-Rows p 0 4).0,
      (leaf0d-Rows p 0 10).0,
      length-append (leaf0d_rows p 0 10) hypervisor_rows,
      length-append (leaf0b_rows p 0 4) x4,
      length-append (leaf07_rows p) x3,
      length-append (leaf04_rows p 0 5) x2,
      length-append (leaf01_rows p) x1,
    )

-- The first rows all have room.
first_table : (p : Source) → add_rows [] (first_rows p) ≡ first_rows p
first_table p = add_rows-append (first_rows p) [] (omega (arith, length-first_rows p))

-- What the first rows answer the whole table answers.
find-filled_table :
    (p : Source) (standard extended leaf subleaf : ℕ) (answer : Registers)
    → find_override (first_rows p) leaf subleaf ≡ some answer
    → find_override (filled_table p standard extended) leaf subleaf ≡ some answer
unfolding filled_table
find-filled_table p standard extended leaf subleaf answer h =
    let first = add_rows [] (first_rows p) in
    let second = add_rows first (extended_rows p 0x80000000 (extended - 0x7FFFFFFF)) in
    find-add_rows (other_rows p 2 (standard - 1)) second leaf subleaf answer (
      find-add_rows (extended_rows p 0x80000000 (extended - 0x7FFFFFFF)) first leaf subleaf answer
        (subst (λ t. find_override t leaf subleaf ≡ some answer) (sym (first_table p)) h))

find-svm_leaf :
    (p : Source) (table : List Override) (n : ℕ)
    → length table ≤ 27
    → find_override table 0x80000001 0 ≡ none
    → let r = p.cpuid 0x80000001 in
      find_override (add_rows table (extended_rows p 0x80000000 (suc (suc n)))) 0x80000001 0
      ≡ some (record r { ecx = set_bit r.ecx 2 })
unfolding extended_rows add_rows find_override
find-svm_leaf p table n few absent =
    let r = p.cpuid 0x80000001 in
    let shown : Registers = record r { ecx = set_bit r.ecx 2 } in
    let two = row_of 0x80000000 0 (p.cpuid 0x80000000) ∷ row_of 0x80000001 0 shown ∷ [] in
    let both = add_rows-append two table (omega (arith, few)) in
    find-add_rows (extended_rows p 0x80000002 n) (add_rows table two) 0x80000001 0 shown
      (ap (λ t. find_override t 0x80000001 0) both ∙ find-append_none table two 0x80000001 0 absent)

spoof_init_table :
    (p : Source) (table : List Override)
    → spoof_init p ≡ some table
    → table ≡ filled_table p (p.cpuid 0).eax (p.cpuid 0x80000000).eax
unfolding spoof_init
spoof_init_table p table h = ground arith

-- CpuidSpoofInit never fills more than the 128 places of its table.
pub spoof_init-bound :
    (p : Source) (table : List Override) → spoof_init p ≡ some table → length table ≤ max_overrides
unfolding filled_table
spoof_init-bound p table h =
    subst (λ t. length t ≤ max_overrides) (sym (spoof_init_table p table h))
      (add_rows-bound _ _ (add_rows-bound _ _ (add_rows-bound _ [] (omega arith))))

handler-found :
    (p : Source) (table : List Override) (leaf subleaf : ℕ) (answer : Registers)
    → find_override table leaf subleaf ≡ some answer
    → spoof_handler p table leaf subleaf ≡ answer
unfolding spoof_handler
handler-found p table leaf subleaf answer h = rw (spoof_handler, h) refl

find-leaf01 :
    (p : Source)
    → let r = p.cpuid 1 in
      find_override (first_rows p) 1 0
      ≡ some (record r { ecx = clear_bit (set_bit (set_bit r.ecx 5) 31) 15 })
unfolding first_rows leaf01_rows find_override
find-leaf01 p = refl

feature_bits :
    (x : ℕ)
    → let y = clear_bit (set_bit (set_bit x 5) 31) 15 in
      (bit_is_set y 5 ≡ true) × (bit_is_set y 31 ≡ true) × (bit_is_set y 15 ≡ false)
feature_bits x = (ground arith, ground arith, ground arith)

-- After CpuidSpoofInit the handler answers leaf 1, subleaf 0, with VMX and the hypervisor present and
-- without PDCM, and otherwise with the processor's registers but for ECX.
pub spoof_handler-features :
    (p : Source) (table : List Override)
    → spoof_init p ≡ some table
    → let r = spoof_handler p table 1 0 in
      (bit_is_set r.ecx 5 ≡ true)
      × (bit_is_set r.ecx 31 ≡ true)
      × (bit_is_set r.ecx 15 ≡ false)
      × (r.eax ≡ (p.cpuid 1).eax)
      × (r.ebx ≡ (p.cpuid 1).ebx)
      × (r.edx ≡ (p.cpuid 1).edx)
spoof_handler-features p table h =
    let r = p.cpuid 1 in
    let shown : Registers = record r { ecx = clear_bit (set_bit (set_bit r.ecx 5) 31) 15 } in
    let answer : spoof_handler p table 1 0 ≡ shown = handler-found p table 1 0 shown (
      subst (λ t. find_override t 1 0 ≡ some shown) (sym (spoof_init_table p table h))
        (find-filled_table p (p.cpuid 0).eax (p.cpuid 0x80000000).eax 1 0 shown (find-leaf01 p))) in
    let (vmx, hypervisor, pdcm) = feature_bits r.ecx in
    rw answer (vmx, hypervisor, pdcm, refl, refl, refl)

find-hypervisor :
    (p : Source)
    → find_override (first_rows p) 0x40000000 0
      ≡ some (record { eax = 0x40000005; ebx = signature; ecx = signature; edx = signature })
unfolding hypervisor_rows find_override
find-hypervisor p = find-first_rows p 0x40000000 0 (omega arith)

find-no_svm_leaf : (p : Source) → find_override (first_rows p) 0x80000001 0 ≡ none
unfolding hypervisor_rows find_override
find-no_svm_leaf p = find-first_rows p 0x80000001 0 (omega arith)

find-filled_svm :
    (p : Source) (standard extended : ℕ)
    → 0x80000001 ≤ extended
    → let r = p.cpuid 0x80000001 in
      find_override (filled_table p standard extended) 0x80000001 0
      ≡ some (record r { ecx = set_bit r.ecx 2 })
unfolding filled_table
find-filled_svm p standard extended has =
    let r = p.cpuid 0x80000001 in
    let shown : Registers = record r { ecx = set_bit r.ecx 2 } in
    let rounds : extended - 0x7FFFFFFF ≡ suc (suc (extended - 0x80000001)) = omega (arith, has) in
    let second = add_rows (first_rows p) (extended_rows p 0x80000000 (extended - 0x7FFFFFFF)) in
    let found : find_override second 0x80000001 0 ≡ some shown =
      ap (λ n. find_override (add_rows (first_rows p) (extended_rows p 0x80000000 n)) 0x80000001 0)
        rounds
      ∙ find-svm_leaf p (first_rows p) (extended - 0x80000001) (length-first_rows p)
          (find-no_svm_leaf p) in
    ap
      (λ t.
        find_override
          (add_rows (add_rows t (extended_rows p 0x80000000 (extended - 0x7FFFFFFF)))
            (other_rows p 2 (standard - 1)))
          0x80000001 0)
      (first_table p)
    ∙ find-add_rows (other_rows p 2 (standard - 1)) second 0x80000001 0 shown found

-- The rows of the extended and the other leaves are for subleaf 0 only.
find-extended_rows :
    (p : Source) (from n leaf subleaf : ℕ)
    → 0 < subleaf
    → find_override (extended_rows p from n) leaf subleaf ≡ none
unfolding extended_rows find_override
find-extended_rows p from zero leaf subleaf h = refl
find-extended_rows p from (suc n) leaf subleaf h =
    ground (arith, find-extended_rows p (from + 1) n leaf subleaf h)

find-other_rows :
    (p : Source) (from n leaf subleaf : ℕ)
    → 0 < subleaf
    → find_override (other_rows p from n) leaf subleaf ≡ none
unfolding other_rows find_override
find-other_rows p from zero leaf subleaf h = refl
find-other_rows p from (suc n) leaf subleaf h =
    ground (arith, find-other_rows p (from + 1) n leaf subleaf h)

find-hypervisor_rows :
    (leaf subleaf : ℕ) → 0 < subleaf → find_override hypervisor_rows leaf subleaf ≡ none
unfolding hypervisor_rows find_override
find-hypervisor_rows leaf subleaf h = ground arith

find-filled_none :
    (p : Source) (standard extended leaf subleaf : ℕ)
    → 0x40000000 ≤ leaf
    → 0 < subleaf
    → find_override (filled_table p standard extended) leaf subleaf ≡ none
unfolding filled_table
find-filled_none p standard extended leaf subleaf high h =
    let first = add_rows [] (first_rows p) in
    let more = extended_rows p 0x80000000 (extended - 0x7FFFFFFF) in
    let absent : find_override first leaf subleaf ≡ none =
      ap (λ t. find_override t leaf subleaf) (first_table p)
      ∙ find-first_rows p leaf subleaf high
      ∙ find-hypervisor_rows leaf subleaf h in
    find-add_rows-none (other_rows p 2 (standard - 1)) (add_rows first more) leaf subleaf
      (find-add_rows-none more first leaf subleaf absent
        (find-extended_rows p 0x80000000 (extended - 0x7FFFFFFF) leaf subleaf h))
      (find-other_rows p 2 (standard - 1) leaf subleaf h)

handler-missing :
    (p : Source) (table : List Override) (leaf subleaf : ℕ)
    → find_override table leaf subleaf ≡ none
    → hidden leaf ≡ false
    → spoof_handler p table leaf subleaf ≡ p.cpuid_ex leaf subleaf
unfolding spoof_handler
handler-missing p table leaf subleaf h shown = rw (spoof_handler, h, shown) refl

-- After CpuidSpoofInit on a processor with the extended leaf 0x80000001, however many leaves it has,
-- the handler answers subleaf 0 of that leaf with the processor's registers and SVM present, and
-- subleaf 0 of the hypervisor's first leaf with the signature and the highest of its leaves. For any
-- other subleaf of the two it answers with the processor's own registers for it, without either.
pub spoof_handler-hypervisor :
    (p : Source) (table : List Override)
    → spoof_init p ≡ some table
    → 0x80000001 ≤ (p.cpuid 0x80000000).eax
    → let r = p.cpuid 0x80000001 in
      (spoof_handler p table 0x80000001 0 ≡ record r { ecx = set_bit r.ecx 2 })
      × (spoof_handler p table 0x40000000 0
          ≡ record { eax = 0x40000005; ebx = signature; ecx = signature; edx = signature })
      × ((subleaf : ℕ)
          → 0 < subleaf
          → (spoof_handler p table 0x80000001 subleaf ≡ p.cpuid_ex 0x80000001 subleaf)
            × (spoof_handler p table 0x40000000 subleaf ≡ p.cpuid_ex 0x40000000 subleaf))
spoof_handler-hypervisor p table h has =
    let standard = (p.cpuid 0).eax in
    let extended = (p.cpuid 0x80000000).eax in
    let whole = spoof_init_table p table h in
    let found =
      λ (leaf : ℕ) (answer : Registers)
          (e : find_override (filled_table p standard extended) leaf 0 ≡ some answer).
        handler-found p table leaf 0 answer (ap (λ t. find_override t leaf 0) whole ∙ e) in
    (
      found 0x80000001 _ (find-filled_svm p standard extended has),
      found 0x40000000 _ (find-filled_table p standard extended 0x40000000 0 _ (find-hypervisor p)),
      λ subleaf h.
          let none_of = λ (leaf : ℕ) (high : 0x40000000 ≤ leaf).
            ap (λ t. find_override t leaf subleaf) whole
            ∙ find-filled_none p standard extended leaf subleaf high h in
          (
            handler-missing p table 0x80000001 subleaf (none_of 0x80000001 (omega arith)) refl,
            handler-missing p table 0x40000000 subleaf (none_of 0x40000000 (omega arith)) refl,
          ),
    )
