-- ===== src/Legacy.antt =====
-- The services for legacy systems: legacy/csm/CsmModule.c, which emulates the BIOS interrupts 13h, 15h
-- (E820) and 16h, and legacy/boot/BootProtocol.c, which looks for a boot sector. What the boot services
-- and the block devices answer are arguments.
pub mod Memory
pub mod Boot
mod Tests
use bemi_bios.Prelude.{
  ℕ, zero, suc, ◌+◌, ◌*◌, ◌/◌, ◌%◌, ◌^◌, Bool, true, false, ◌||◌, not, List, [], ◌∷◌, map, Option,
  none, some, ltb, ◌==◌, if◌then◌else◌, low32, length,
}
use bemi_bios.Efi.{
  EfiStatus, success, unsupported, out_of_resources, buffer_too_small, not_found, no_media,
  is_error,
}

-- The types of UEFI memory that CsmEmulateInt15E820 tells apart.
pub data MemoryType : Type 0 where
  conventional : MemoryType
  loader_code : MemoryType
  loader_data : MemoryType
  boot_services_code : MemoryType
  boot_services_data : MemoryType
  acpi_reclaim : MemoryType
  acpi_nvs : MemoryType
  other : MemoryType

-- EFI_MEMORY_DESCRIPTOR, the fields that are used.
pub record Descriptor : Type 0 where
  pub kind : MemoryType
  pub physical_start : ℕ
  pub pages : ℕ

-- The 24 bytes of an entry of the E820 map.
pub record E820Entry : Type 0 where
  pub base : ℕ
  pub bytes : ℕ
  pub e820_kind : ℕ
  pub extended : ℕ

unfoldable pub e820_type : MemoryType → ℕ
e820_type conventional = 1
e820_type loader_code = 1
e820_type loader_data = 1
e820_type boot_services_code = 1
e820_type boot_services_data = 1
e820_type acpi_reclaim = 3
e820_type acpi_nvs = 4
e820_type other = 2

-- The body of the loop.
abbrev pub e820_entry : Descriptor → E820Entry
e820_entry desc = record {
  base = desc.physical_start;
  bytes = desc.pages * 4096 % 2 ^ 64;
  e820_kind = e820_type desc.kind;
  extended = 1;
}

-- The loop over the first n descriptors.
unfoldable pub e820_entries : ℕ → List Descriptor → List E820Entry
e820_entries zero descs = []
e820_entries (suc n) [] = []
e820_entries (suc n) (desc ∷ descs) = e820_entry desc ∷ e820_entries n descs

-- What GetMemoryMap returns to the two calls, and whether there is a pool for the map.
pub record MapAnswers : Type 0 where
  pub probe_status : EfiStatus
  pub map_pool : Bool
  pub map_status : EfiStatus
  pub descriptors : List Descriptor

abbrev pub is_too_small : EfiStatus → Bool
is_too_small buffer_too_small = true
is_too_small _ = false

-- count and its limit by *MapCount
abbrev pub e820_count : MapAnswers → ℕ → ℕ
e820_count a capacity =
    let n = low32 (length a.descriptors) in if ltb capacity n then capacity else n

-- CsmEmulateInt15E820: the status, the entries that it writes and *MapCount.
unfoldable pub emulate_int15_e820 : MapAnswers → ℕ → EfiStatus × List E820Entry × ℕ
emulate_int15_e820 a capacity =
    let count = e820_count a capacity in
    if not (is_too_small a.probe_status)
    then (a.probe_status, [], capacity)
    else if not a.map_pool
    then (out_of_resources, [], capacity)
    else if is_error a.map_status
    then (a.map_status, [], capacity)
    else (success, e820_entries count a.descriptors, count)

-- A request to the first block device: whether it is a write, the block and the bytes.
pub record BlockRequest : Type 0 where
  pub is_write : Bool
  pub lba : ℕ
  pub size : ℕ

abbrev pub block_request : Bool → ℕ → ℕ → ℕ → BlockRequest
block_request w block_size lba sectors = record {
  is_write = w;
  lba = lba;
  size = sectors * block_size % 2 ^ 32;
}

abbrev pub send : (BlockRequest → EfiStatus) → BlockRequest → EfiStatus × Option BlockRequest
send device request = (device request, some request)

-- CsmEmulateInt13, by the statuses of the two look-ups, the number of handles, the size of a block and
-- what the device answers; with the request that it makes.
unfoldable pub emulate_int13 :
    EfiStatus
    → ℕ
    → EfiStatus
    → ℕ
    → (BlockRequest → EfiStatus)
    → ℕ
    → ℕ
    → ℕ
    → EfiStatus × Option BlockRequest
emulate_int13 located handles opened block_size device function lba sectors =
    if is_error located || handles == 0
    then (no_media, none)
    else if is_error opened
    then (opened, none)
    else if function == 2
    then send device (block_request false block_size lba sectors)
    else if function == 3
    then send device (block_request true block_size lba sectors)
    else (unsupported, none)

-- CsmEmulateInt16Keyboard: *ScanCode for a key.
abbrev pub keyboard_code : ℕ → ℕ → ℕ
keyboard_code scan_code unicode_char = scan_code * 2 ^ 8 % 2 ^ 16 + unicode_char % 2 ^ 8

-- What one block device answers to the scan: the status of its protocol, whether it is a logical
-- partition, whether there is a pool for its sector, the status of the read, and the word at 510.
pub record Disk : Type 0 where
  pub protocol_status : EfiStatus
  pub is_partition : Bool
  pub sector_pool : Bool
  pub read_status : EfiStatus
  pub boot_signature : ℕ

abbrev pub is_skipped : Disk → Bool
is_skipped disk = is_error disk.protocol_status || disk.is_partition

abbrev pub has_boot_sector : Disk → Bool
has_boot_sector disk = if is_error disk.read_status then false else disk.boot_signature == 0xAA55

-- The loop of BootProtocolScanAndLoad from disk i on: the status, and the disk that it loads.
unfoldable pub scan_disks : ℕ → List Disk → EfiStatus × Option ℕ
scan_disks i [] = (not_found, none)
scan_disks i (disk ∷ disks) =
    let rest = scan_disks (i + 1) disks in
    if is_skipped disk
    then rest
    else if not disk.sector_pool
    then (out_of_resources, none)
    else if has_boot_sector disk
    then (success, some i)
    else rest

-- BootProtocolScanAndLoad for pointers that are not NULL.
unfoldable pub scan_and_load : EfiStatus → List Disk → EfiStatus × Option ℕ
scan_and_load located disks =
    if is_error located || length disks == 0 then (not_found, none) else scan_disks 0 disks
