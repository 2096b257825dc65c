-- ===== src/Acpi/Checksum.antt =====
-- The bytes of the MADT add up to 0.
use bemi_bios.Prelude.{
  ℕ, zero, suc, ◌+◌, ◌*◌, ◌%◌, ◌<◌, ◌≡◌, refl, ap, sym, ◌∙◌, List, [], ◌∷◌, low32, length, arith,
}
use bemi_bios.Acpi.{
  Madt, Layout, byte_sum, calc_checksum, local_apics_from, unsigned_madt, build_madt,
}

-- The sum of bytes without a wrap.
abbrev pub total : List ℕ → ℕ
total [] = 0
total (b ∷ bs) = b + total bs

byte_sum-total : (bs : List ℕ) (sum : ℕ) → byte_sum bs sum % 256 ≡ (sum + total bs) % 256
unfolding byte_sum
byte_sum-total [] sum = ap (λ x. x % 256) (omega arith)
byte_sum-total (b ∷ bs) sum = let rest = byte_sum-total bs ((sum + b) % 256) in omega (arith, rest)

byte_sum-small : (bs : List ℕ) (sum : ℕ) → sum < 256 → byte_sum bs sum < 256
unfolding byte_sum
byte_sum-small [] sum h = h
byte_sum-small (b ∷ bs) sum h = byte_sum-small bs ((sum + b) % 256) (omega arith)

length-local_apics : (i n : ℕ) → length (local_apics_from i n) ≡ n
unfolding local_apics_from
length-local_apics i zero = refl
length-local_apics i (suc n) = ap (λ k. suc k) (length-local_apics (i + 1) n)

-- What the layout of the headers gives: the checksum is one byte of the table, and the sizes are
-- those of the structures.
pub record IsPacked (l : Layout) : Type 0 where
  pub checksum_byte :
      (m : Madt) (c : ℕ)
      → c < 256
      → total (l.bytes_of (record m { checksum = c }))
        ≡ total (l.bytes_of (record m { checksum = 0 })) + c
  pub packed_size :
      (m : Madt)
      → length (l.bytes_of m)
        ≡ l.header_size + length m.local_apics * l.local_apic_size + l.io_apic_size

-- In a packed layout the bytes of the MADT that AcpiInitTables builds add up to 0 modulo 256, it has
-- one local APIC for each processor, and its length field is the number of its bytes, modulo 2^32.
pub build_madt-checksum :
    (l : Layout) (count : ℕ)
    → IsPacked l
    → let m = build_madt l count in
      (total (l.bytes_of m) % 256 ≡ 0)
      × (length m.local_apics ≡ count)
      × (m.table_length ≡ low32 (length (l.bytes_of m)))
unfolding build_madt calc_checksum
build_madt-checksum l count packed =
    let m = unsigned_madt l count in
    let bs = l.bytes_of m in
    let c = calc_checksum bs in
    let small : c < 256 = omega arith in
    let signed = packed.checksum_byte m c small in
    let apics = length-local_apics 0 count in
    let size = packed.packed_size (build_madt l count) in
    (
      omega (arith, signed, byte_sum-total bs 0, byte_sum-small bs 0 (omega arith)),
      apics,
      ap low32
          (ap (λ n. l.header_size + n * l.local_apic_size + l.io_apic_size) (sym apics) ∙ sym size),
    )
