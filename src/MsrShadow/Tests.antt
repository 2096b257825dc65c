-- ===== src/MsrShadow/Tests.antt =====
-- The shadow table at a concrete processor.
use bemi_bios.Prelude.{ℕ, ◌+◌, ◌≡◌, ◌⊎◌, refl, false, some, ◌==◌, if◌then◌else◌, [], ◌∷◌}
use bemi_bios.MsrShadow.{
  MsrShadow, msr_mtrr_cap, find_from, find_shadow_msr, add_rows, add_mtrrs, mtrr_rounds, init,
  write,
}
use bemi_bios.MsrShadow.Access.{Through, Denied, Stored, write_lem}

-- Two variable-range MTRRs.
abbrev processor : ℕ → ℕ
processor index = if index == msr_mtrr_cap then 0x502 else index + 1

abbrev no_table : MsrShadow
no_table = record {
  table = λ _. record {
    index = 0;
    value = 0;
    is_shadowed = false;
    is_read_only = false;
    passthrough_on_write = false;
  };
  count = 0;
  writes = [];
}

abbrev shadow : MsrShadow
shadow = init processor no_table

init_count : shadow.count ≡ 24
unfolding init mtrr_rounds add_rows add_mtrrs
init_count = refl

write_efer : (write shadow 0xC0000080 0x500).1.writes ≡ (0xC0000080, 0x500) ∷ []
unfolding init mtrr_rounds add_rows add_mtrrs write find_from
write_efer = refl

write_lem_example :
    Through processor shadow 0x10 77
    ⊎ ((i : ℕ) × (find_shadow_msr shadow 0x10 ≡ some i)
        × (Denied processor shadow 0x10 77 i ⊎ Stored processor shadow 0x10 77 i))
write_lem_example = write_lem processor shadow 0x10 77
