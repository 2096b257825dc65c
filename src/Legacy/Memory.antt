-- ===== src/Legacy/Memory.antt =====
-- The E820 map shows the usable memory of UEFI's map.
use bemi_bios.Prelude.{
  ℕ, zero, suc, ◌+◌, ◌*◌, ◌%◌, ◌^◌, ◌≤◌, ◌<◌, ◌≡◌, refl, ap, Bool, true, false, List, [], ◌∷◌, ◌==◌,
  if◌then◌else◌, length, arith,
}
use bemi_bios.Efi.{success, buffer_too_small}
use bemi_bios.Legacy.{
  MemoryType, conventional, loader_code, loader_data, boot_services_code, boot_services_data,
  acpi_reclaim, acpi_nvs, other, Descriptor, E820Entry, e820_type, e820_entries, MapAnswers,
  e820_count, emulate_int15_e820,
}

-- The memory that an operating system may use once the boot services are gone.
abbrev pub is_ram : MemoryType → Bool
is_ram acpi_reclaim = false
is_ram acpi_nvs = false
is_ram other = false
is_ram _ = true

-- The bytes of RAM in a map of UEFI, and in an E820 map.
abbrev pub ram_bytes : List Descriptor → ℕ
ram_bytes [] = 0
ram_bytes (desc ∷ descs) =
    (if is_ram desc.kind then desc.pages * 4096 % 2 ^ 64 else 0) + ram_bytes descs

abbrev pub usable_bytes : List E820Entry → ℕ
usable_bytes [] = 0
usable_bytes (entry ∷ entries) =
    (if entry.e820_kind == 1 then entry.bytes else 0) + usable_bytes entries

-- The descriptors behind the first n.
abbrev pub beyond : ℕ → List Descriptor → List Descriptor
beyond zero descs = descs
beyond (suc n) [] = []
beyond (suc n) (desc ∷ descs) = beyond n descs

e820_type-ram : (kind : MemoryType) → (e820_type kind == 1) ≡ is_ram kind
unfolding e820_type
e820_type-ram conventional = refl
e820_type-ram loader_code = refl
e820_type-ram loader_data = refl
e820_type-ram boot_services_code = refl
e820_type-ram boot_services_data = refl
e820_type-ram acpi_reclaim = refl
e820_type-ram acpi_nvs = refl
e820_type-ram other = refl

e820_entries-usable :
    (n : ℕ) (descs : List Descriptor)
    → usable_bytes (e820_entries n descs) + ram_bytes (beyond n descs) ≡ ram_bytes descs
unfolding e820_entries
e820_entries-usable zero descs = omega arith
e820_entries-usable (suc n) [] = refl
e820_entries-usable (suc n) (desc ∷ descs) =
    let rest = e820_entries-usable n descs in
    let size = desc.pages * 4096 % 2 ^ 64 in
    let here : (if e820_type desc.kind == 1 then size else 0)
        ≡ (if is_ram desc.kind then size else 0) =
      ap (λ b. if b then size else 0) (e820_type-ram desc.kind) in
    omega (arith, rest, here)

length-e820_entries :
    (n : ℕ) (descs : List Descriptor) → n ≤ length descs → length (e820_entries n descs) ≡ n
unfolding e820_entries
length-e820_entries zero descs h = refl
length-e820_entries (suc n) [] h = absurd (omega arith)
length-e820_entries (suc n) (desc ∷ descs) h =
    ap (λ k. suc k) (length-e820_entries n descs (omega arith))

-- When GetMemoryMap answers as it should with less than 2^32 descriptors and there is a pool for
-- them, INT 15h E820 succeeds with as many entries as it reports, which are at most the entries
-- asked for and the descriptors; and the RAM in them is all of UEFI's map but what stands behind that
-- many descriptors.
pub emulate_int15_e820_lem :
    (a : MapAnswers) (capacity : ℕ)
    → a.probe_status ≡ buffer_too_small
    → a.map_pool ≡ true
    → a.map_status ≡ success
    → length a.descriptors < 2 ^ 32
    → let (status, entries, count) = emulate_int15_e820 a capacity in
      (status ≡ success)
      × (length entries ≡ count)
      × (count ≤ capacity)
      × (count ≤ length a.descriptors)
      × (usable_bytes entries + ram_bytes (beyond count a.descriptors) ≡ ram_bytes a.descriptors)
unfolding emulate_int15_e820
emulate_int15_e820_lem a capacity probe pool map few =
    let count = e820_count a capacity in
    let limit : count ≤ capacity = ground (arith, few) in
    let inside : count ≤ length a.descriptors = ground (arith, few) in
    rw (emulate_int15_e820, probe, pool, map)
      (
        refl,
        length-e820_entries count a.descriptors inside,
        limit,
        inside,
        e820_entries-usable count a.descriptors,
      )
