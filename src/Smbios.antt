-- ===== src/Smbios.antt =====
-- The SMBIOS structures of hwcompat/smbios/SmbiosTables.c: SmbiosInitTables builds the types 0, 1 and 4
-- and hands them to the SMBIOS protocol. A character is its ASCII code.
pub mod Strings
mod Tests
use bemi_bios.Prelude.{
  ◌+◌, ltb, length, Array, update, ℕ, zero, suc, ◌-◌, ◌%◌, Bool, true, false, List, [], ◌∷◌, ◌++◌,
  if◌then◌else◌,
}
use bemi_bios.Efi.{EfiStatus, success, is_error}

-- The strings BEMI, v7.2, BEMI Hardware, BEMI Box, Socket BEMI, BEMI Corp and BEMI Processor.
abbrev pub bemi : List ℕ
bemi = 66 ∷ 69 ∷ 77 ∷ 73 ∷ []

abbrev pub bios_version : List ℕ
bios_version = 118 ∷ 55 ∷ 46 ∷ 50 ∷ []

abbrev pub bemi_hardware : List ℕ
bemi_hardware = bemi ++ (32 ∷ 72 ∷ 97 ∷ 114 ∷ 100 ∷ 119 ∷ 97 ∷ 114 ∷ 101 ∷ [])

abbrev pub bemi_box : List ℕ
bemi_box = bemi ++ (32 ∷ 66 ∷ 111 ∷ 120 ∷ [])

abbrev pub socket_bemi : List ℕ
socket_bemi = (83 ∷ 111 ∷ 99 ∷ 107 ∷ 101 ∷ 116 ∷ 32 ∷ []) ++ bemi

abbrev pub bemi_corp : List ℕ
bemi_corp = bemi ++ (32 ∷ 67 ∷ 111 ∷ 114 ∷ 112 ∷ [])

abbrev pub bemi_processor : List ℕ
bemi_processor = bemi ++ (32 ∷ 80 ∷ 114 ∷ 111 ∷ 99 ∷ 101 ∷ 115 ∷ 115 ∷ 111 ∷ 114 ∷ [])

-- AsciiStrSize: with the NUL.
abbrev pub ascii_size : List ℕ → ℕ
ascii_size s = length s + 1

-- The characters of a string and its NUL, from an offset on.
unfoldable pub write_string : Array ℕ → ℕ → List ℕ → Array ℕ
write_string block offset [] = update block offset 0
write_string block offset (c ∷ cs) = write_string (update block offset c) (offset + 1) cs

-- AsciiStrCpyS for a size of the destination: a string that does not fit with its NUL is not copied,
-- and no caller looks at the status.
unfoldable pub copy_string : Array ℕ → ℕ → ℕ → List ℕ → Array ℕ
copy_string block offset room s = if ltb (length s) room then write_string block offset s else block

-- The 64 bytes of Strings in T0 and T1, and in T4, by their offsets: each string is copied behind the
-- one before, and the last byte written is the second NUL.
unfoldable pub two_strings : List ℕ → List ℕ → Array ℕ
two_strings s1 s2 =
    let zeros : Array ℕ = λ k. 0 in
    let s1_len = ascii_size s1 in
    let s2_len = ascii_size s2 in
    let first = copy_string zeros 0 64 s1 in
    let second = copy_string first s1_len (64 - s1_len) s2 in update second (s1_len + s2_len) 0

unfoldable pub three_strings : List ℕ → List ℕ → List ℕ → Array ℕ
three_strings s1 s2 s3 =
    let zeros : Array ℕ = λ k. 0 in
    let s1_len = ascii_size s1 in
    let s2_len = ascii_size s2 in
    let s3_len = ascii_size s3 in
    let first = copy_string zeros 0 64 s1 in
    let second = copy_string first s1_len (64 - s1_len) s2 in
    let third = copy_string second (s1_len + s2_len) (64 - s1_len - s2_len) s3 in
    update third (s1_len + s2_len + s3_len) 0

-- A structure: its type, the numbers of its strings in the order of their fields, the counts of
-- processors (of type 4) and the block of strings.
pub record Structure : Type 0 where
  pub structure_type : ℕ
  pub string_numbers : List ℕ
  pub core_counts : List ℕ
  pub strings : Array ℕ

abbrev pub bios_information : Structure
bios_information = record {
  structure_type = 0;
  string_numbers = 1 ∷ 2 ∷ [];
  core_counts = [];
  strings = two_strings bemi bios_version;
}

abbrev pub system_information : Structure
system_information = record {
  structure_type = 1;
  string_numbers = 1 ∷ 2 ∷ [];
  core_counts = [];
  strings = two_strings bemi_hardware bemi_box;
}

abbrev pub processor_information : ℕ → Structure
processor_information cpus = record {
  structure_type = 4;
  string_numbers = 1 ∷ 2 ∷ 3 ∷ [];
  core_counts = cpus % 256 ∷ cpus % 256 ∷ cpus % 256 ∷ [];
  strings = three_strings socket_bemi bemi_corp bemi_processor;
}

-- One call of Add of the protocol: its status is only printed.
abbrev pub add_structure : (Structure → EfiStatus) → Structure → List Structure → List Structure
add_structure protocol s added = if is_error (protocol s) then added else added ++ (s ∷ [])

-- SmbiosInitTables: the status, and the structures that the protocol has accepted.
unfoldable pub smbios_init_tables :
    EfiStatus → (Structure → EfiStatus) → ℕ → EfiStatus × List Structure
smbios_init_tables located protocol cpus = if is_error located then (located, []) else (
  success,
  add_structure protocol (processor_information cpus)
      (add_structure protocol system_information (add_structure protocol bios_information [])),
)
