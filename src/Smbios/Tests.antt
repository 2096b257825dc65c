-- ===== src/Smbios/Tests.antt =====
-- The strings of the processor information.
use bemi_bios.Prelude.{◌+◌, ◌≡◌, arith}
use bemi_bios.Smbios.{ascii_size, three_strings, socket_bemi, bemi_corp, bemi_processor}
use bemi_bios.Smbios.Strings.{HoldsAt, three_strings-HoldsAt}

three_strings-HoldsAt_example :
    let block = three_strings socket_bemi bemi_corp bemi_processor in
    HoldsAt block 0 socket_bemi
    × HoldsAt block (ascii_size socket_bemi) bemi_corp
    × HoldsAt block (ascii_size socket_bemi + ascii_size bemi_corp) bemi_processor
    × (block (ascii_size socket_bemi + ascii_size bemi_corp + ascii_size bemi_processor) ≡ 0)
three_strings-HoldsAt_example =
    three_strings-HoldsAt socket_bemi bemi_corp bemi_processor (omega arith)
