-- ===== src/Legacy/Tests.antt =====
-- A memory map of three ranges, and two disks.
use bemi_bios.Prelude.{◌+◌, ◌≤◌, ◌≡◌, refl, true, false, [], ◌∷◌, length, arith}
use bemi_bios.Efi.{success, buffer_too_small}
use bemi_bios.Legacy.{
  conventional, acpi_nvs, loader_data, MapAnswers, emulate_int15_e820, Disk, scan_and_load,
}
use bemi_bios.Legacy.Memory.{ram_bytes, usable_bytes, beyond, emulate_int15_e820_lem}
use bemi_bios.Legacy.Boot.{Scanned, scan_and_load-Scanned}

abbrev map_answers : MapAnswers
map_answers = record {
  probe_status = buffer_too_small;
  map_pool = true;
  map_status = success;
  descriptors =
      record { kind = conventional; physical_start = 0; pages = 0x9F }
      ∷ record { kind = acpi_nvs; physical_start = 0x9F000; pages = 1 }
      ∷ record { kind = loader_data; physical_start = 0x100000; pages = 0x1000 }
      ∷ [];
}

emulate_int15_e820_lem_example :
    let (status, entries, count) = emulate_int15_e820 map_answers 2 in
    (status ≡ success)
    × (length entries ≡ count)
    × (count ≤ 2)
    × (count ≤ length map_answers.descriptors)
    × (usable_bytes entries + ram_bytes (beyond count map_answers.descriptors)
        ≡ ram_bytes map_answers.descriptors)
emulate_int15_e820_lem_example = emulate_int15_e820_lem map_answers 2 refl refl refl (omega arith)

abbrev partition : Disk
partition = record {
  protocol_status = success;
  is_partition = true;
  sector_pool = true;
  read_status = success;
  boot_signature = 0xAA55;
}

abbrev whole_disk : Disk
whole_disk = record partition { is_partition = false }

scan_and_load-Scanned_example :
    Scanned 0 (partition ∷ whole_disk ∷ []) (scan_and_load success (partition ∷ whole_disk ∷ []))
scan_and_load-Scanned_example = scan_and_load-Scanned success partition (whole_disk ∷ []) refl
