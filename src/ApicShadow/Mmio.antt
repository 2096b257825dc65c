-- ===== src/ApicShadow/Mmio.antt =====
-- Accesses to the register page.
use bemi_bios.Prelude.{
  ℕ, ◌+◌, ◌-◌, ◌/◌, ◌≤◌, ◌<◌, ◌≡◌, ◌≢◌, ◌⊎◌, refl, ap, ◌∙◌, Bool, true, false, ◌||◌, ltb, leb,
  if◌then◌else◌, update, low32, arith,
}
use bemi_bios.ApicShadow.{Apic, lapic_regs_size, read_reg, write_reg, apic_base, handle_mmio}

write_reg-regs :
    (msb : ℕ → ℕ) (s : Apic) (offset value : ℕ)
    → offset < lapic_regs_size
    → offset ≢ 0xB0
    → (write_reg msb s offset value).regs ≡ update s.regs (offset / 4) value
unfolding write_reg
write_reg-regs msb s offset value h ne = ground arith

read_reg-regs :
    (s : Apic) (offset : ℕ) → offset < lapic_regs_size → read_reg s offset ≡ s.regs (offset / 4)
unfolding read_reg
read_reg-regs s offset h = ground arith

-- A write to a register other than the EOI register is read back at the same address, cut to 32
-- bits, and changes no other register.
pub handle_mmio-read_back :
    (msb : ℕ → ℕ) (s : Apic) (offset value old : ℕ)
    → offset < lapic_regs_size
    → offset ≢ 0xB0
    → let (handled, _, t) = handle_mmio msb s (apic_base + offset) true value in
      (handled ≡ true)
      × (handle_mmio msb t (apic_base + offset) false old ≡ (true, low32 value, t))
      × ((j : ℕ) → j ≢ offset / 4 → t.regs j ≡ s.regs j)
unfolding handle_mmio
handle_mmio-read_back msb s offset value old h ne =
    let inside : (ltb (apic_base + offset) apic_base || leb 0xFEE01000 (apic_base + offset))
        ≡ false =
      ground arith in
    let back : apic_base + offset - apic_base ≡ offset = omega arith in
    let t = write_reg msb s offset (low32 value) in
    let stored = write_reg-regs msb s offset (low32 value) h ne in
    let there : t.regs (offset / 4) ≡ low32 value = rw stored (ground arith) in
    rw (inside, back)
      (
        refl,
        ap (λ x. (true, x, t)) (read_reg-regs t offset h ∙ there),
        λ j far. rw stored (ground arith),
      )

-- Addresses outside the page are left to others, and the page's upper three quarters read as 0 and
-- ignore writes.
pub handle_mmio-outside :
    (msb : ℕ → ℕ) (s : Apic) (address value : ℕ) (is_write : Bool)
    → ((address < apic_base) ⊎ (apic_base + 0x1000 ≤ address)
        → handle_mmio msb s address is_write value ≡ (false, value, s))
      × ((apic_base + lapic_regs_size ≤ address) × (address < apic_base + 0x1000)
          → handle_mmio msb s address is_write value ≡ (true, (if is_write then value else 0), s))
unfolding handle_mmio read_reg write_reg
handle_mmio-outside msb s address value is_write = (λ h. ground arith, λ h. ground arith)
