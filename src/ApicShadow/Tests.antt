-- ===== src/ApicShadow/Tests.antt =====
-- The APIC shadow with a concrete count of leading zeros.
use bemi_bios.Prelude.{
  ℕ, ◌+◌, ◌%◌, ◌≤◌, ◌<◌, ◌≡◌, ◌⊎◌, refl, true, false, leb, if◌then◌else◌, arith,
}
use bemi_bios.ApicShadow.{
  Apic, bit_is_set, apic_init, write_reg, timer_tick, expire, inject, apic_base, handle_mmio,
}
use bemi_bios.ApicShadow.Timer.{ticks, ticks-write_reg}
use bemi_bios.ApicShadow.Mmio.{handle_mmio-outside}
use bemi_bios.ApicShadow.LeadingZeros.{leading_zeros}

abbrev apic : Apic
apic = apic_init 3

-- The vector 0x31 in periodic mode.
abbrev periodic : Apic
periodic = write_reg leading_zeros apic 0x320 0x20031

periodic_fires : (ticks (write_reg leading_zeros periodic 0x380 3) 3).timer_current ≡ 3
unfolding apic_init write_reg timer_tick expire inject ticks
periodic_fires = refl

unmasked : bit_is_set periodic.timer_lvt 16 ≡ false
unfolding apic_init write_reg
unmasked = refl

ticks-write_reg_example :
    let started = write_reg leading_zeros periodic 0x380 3 in
    let vector = periodic.timer_lvt % 256 in
    let after = ticks started 3 in
    ((k m : ℕ)
      → 3 ≡ k + m
      → 0 < m
      → let t = ticks started k in
        (t.regs ≡ started.regs) × (t.timer_enabled ≡ true) × (t.timer_current ≡ m))
    × (after.regs ≡ (if leb 16 vector then (inject started vector).1 else started).regs)
    × ((bit_is_set periodic.timer_lvt 17 ≡ true
          → (after.timer_enabled ≡ true) × (after.timer_current ≡ 3))
        × (bit_is_set periodic.timer_lvt 17 ≡ false → after.timer_enabled ≡ false))
ticks-write_reg_example =
    ticks-write_reg leading_zeros periodic 3 (omega arith) (omega arith) unmasked

handle_mmio-outside_example :
    ((0xFEE00800 < apic_base) ⊎ (apic_base + 0x1000 ≤ 0xFEE00800)
      → handle_mmio leading_zeros apic 0xFEE00800 false 7 ≡ (false, 7, apic))
    × ((apic_base + 0x400 ≤ 0xFEE00800) × (0xFEE00800 < apic_base + 0x1000)
        → handle_mmio leading_zeros apic 0xFEE00800 false 7 ≡ (true, 0, apic))
handle_mmio-outside_example = handle_mmio-outside leading_zeros apic 0xFEE00800 7 false
