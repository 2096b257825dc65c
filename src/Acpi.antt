-- ===== src/Acpi.antt =====
-- The ACPI tables of hwcompat/acpi/AcpiTables.c: the MADT that AcpiInitTables builds and publishes. The
-- packed structures come from the headers of EDK II: how a table is laid out in bytes is the record
-- `Layout`, a parameter.
pub mod Checksum
mod Tests
use bemi_bios.Prelude.{
  ℕ, zero, suc, ◌+◌, ◌-◌, ◌*◌, ◌/◌, ◌%◌, ◌^◌, Bool, true, false, not, List, [], ◌∷◌, Option, none,
  some, if◌then◌else◌, low32,
}
use bemi_bios.Efi.{EfiStatus, success, out_of_resources, is_error}

-- The processor local APIC structure and the I/O APIC structure, the fields that are set.
pub record LocalApic : Type 0 where
  pub processor_id : ℕ
  pub apic_id : ℕ
  pub enabled : ℕ

pub record IoApic : Type 0 where
  pub io_apic_id : ℕ
  pub io_apic_address : ℕ
  pub interrupt_base : ℕ

-- The MADT, the fields that are computed.
pub record Madt : Type 0 where
  pub table_length : ℕ
  pub checksum : ℕ
  pub local_apic_address : ℕ
  pub flags : ℕ
  pub local_apics : List LocalApic
  pub io_apic : IoApic

-- The sizes of the structures, and the bytes of a table.
pub record Layout : Type 0 where
  pub header_size : ℕ
  pub local_apic_size : ℕ
  pub io_apic_size : ℕ
  pub bytes_of : Madt → List ℕ

-- The loop of AcpiCalcChecksum on a UINT8.
unfoldable pub byte_sum : List ℕ → ℕ → ℕ
byte_sum [] sum = sum
byte_sum (b ∷ bs) sum = byte_sum bs ((sum + b) % 256)

-- AcpiCalcChecksum
unfoldable pub calc_checksum : List ℕ → ℕ
calc_checksum bs = (256 - byte_sum bs 0) % 256

-- The loop over the processors from i on.
unfoldable pub local_apics_from : ℕ → ℕ → List LocalApic
local_apics_from i zero = []
local_apics_from i (suc n) =
    record { processor_id = i % 256; apic_id = i % 256; enabled = 1 } ∷ local_apics_from (i + 1) n

abbrev pub madt_size : Layout → ℕ → ℕ
madt_size l count = l.header_size + count * l.local_apic_size + l.io_apic_size

-- The table before its checksum is set.
abbrev pub unsigned_madt : Layout → ℕ → Madt
unsigned_madt l count = record {
  table_length = low32 (madt_size l count);
  checksum = 0;
  local_apic_address = 0xFEE00000;
  flags = 1;
  local_apics = local_apics_from 0 count;
  io_apic = record { io_apic_id = count % 256; io_apic_address = 0xFEC00000; interrupt_base = 0 };
}

unfoldable pub build_madt : Layout → ℕ → Madt
build_madt l count =
    let m = unsigned_madt l count in record m { checksum = calc_checksum (l.bytes_of m) }

-- How the table is published: the protocol copies it; the configuration table keeps its address.
pub data Published : Type 0 where
  nowhere : Published
  copied : Madt → Published
  referenced : Madt → Published

-- What the boot services answer: whether there is a pool, and the statuses of the look-up of the
-- protocol, of the installation by it and of the one as a configuration table.
pub record TableAnswers : Type 0 where
  pub table_pool : Bool
  pub locate_status : EfiStatus
  pub install_status : EfiStatus
  pub configuration_status : EfiStatus

-- AcpiInitTables: the status, what is published, and whether the buffer of the table is freed.
unfoldable pub acpi_init_tables : Layout → TableAnswers → ℕ → EfiStatus × Published × Bool
acpi_init_tables l a count =
    let m = build_madt l count in
    if not a.table_pool
    then (out_of_resources, nowhere, false)
    else if is_error a.locate_status
    then (
      a.configuration_status,
      (if is_error a.configuration_status then nowhere else referenced m),
      true,
    )
    else (a.install_status, (if is_error a.install_status then nowhere else copied m), true)
