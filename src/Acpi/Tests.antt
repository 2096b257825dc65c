-- ===== src/Acpi/Tests.antt =====
-- The tables of two processors, in a layout with the fields that differ.
use bemi_bios.Prelude.{ℕ, ◌+◌, ◌*◌, ◌%◌, ◌≡◌, List, [], ◌∷◌, low32, length, arith}
use bemi_bios.Acpi.{LocalApic, Layout, build_madt}
use bemi_bios.Acpi.Checksum.{total, IsPacked, build_madt-checksum}

abbrev entries : List LocalApic → List ℕ → List ℕ
entries [] after = after
entries (apic ∷ apics) after = apic.processor_id ∷ apic.apic_id ∷ entries apics after

length-entries :
    (apics : List LocalApic) (after : List ℕ)
    → length (entries apics after) ≡ length apics * 2 + length after
length-entries [] after = omega arith
length-entries (apic ∷ apics) after = omega (arith, length-entries apics after)

abbrev short_layout : Layout
short_layout = record {
  header_size = 2;
  local_apic_size = 2;
  io_apic_size = 1;
  bytes_of = λ m. m.checksum ∷ m.flags ∷ entries m.local_apics (m.io_apic.io_apic_id ∷ []);
}

short_layout-IsPacked : IsPacked short_layout
short_layout-IsPacked = record {
  checksum_byte = λ m c h. omega arith;
  packed_size = λ m. omega (arith, length-entries m.local_apics (m.io_apic.io_apic_id ∷ []));
}

build_madt-checksum_example :
    let m = build_madt short_layout 2 in
    (total (short_layout.bytes_of m) % 256 ≡ 0)
    × (length m.local_apics ≡ 2)
    × (m.table_length ≡ low32 (length (short_layout.bytes_of m)))
build_madt-checksum_example = build_madt-checksum short_layout 2 short_layout-IsPacked
