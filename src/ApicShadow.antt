-- ===== src/ApicShadow.antt =====
-- The shadow of the local APIC and of the 8259 mask registers, hwcompat/apic/ApicShadow.c. AsmMsb32,
-- which no file of the repository defines, is the argument `msb`.
pub mod Timer
pub mod Mmio
pub mod LeadingZeros
mod Tests
use bemi_bios.Prelude.{
  ℕ, zero, suc, ◌+◌, ◌-◌, ◌*◌, ◌/◌, ◌%◌, ◌^◌, Bool, true, false, ◌&&◌, ◌||◌, not, Option, none,
  some, ltb, leb, ◌==◌, if◌then◌else◌, Array, update, dec32, low32,
}

abbrev pub lapic_regs_size : ℕ
lapic_regs_size = 0x400

pub record Apic : Type 0 where
  pub regs : Array ℕ
  pub apic_id : ℕ
  pub timer_enabled : Bool
  pub timer_initial : ℕ
  pub timer_current : ℕ
  pub timer_lvt : ℕ
  pub pic_master : ℕ
  pub pic_slave : ℕ

-- x & (1 << b), x | (1 << b) and x & ~(1 << b)
abbrev pub bit_is_set : ℕ → ℕ → Bool
bit_is_set x b = x / 2 ^ b % 2 == 1

abbrev pub set_bit : ℕ → ℕ → ℕ
set_bit x b = if bit_is_set x b then x else x + 2 ^ b

abbrev pub clear_bit : ℕ → ℕ → ℕ
clear_bit x b = if bit_is_set x b then x - 2 ^ b else x

-- ApicShadowInit
unfoldable pub apic_init : ℕ → Apic
apic_init id = record {
  regs =
      update (update (update (λ _. 0) (0x20 / 4) (low32 (id * 2 ^ 24))) (0x30 / 4) 0x50014)
        (0xF0 / 4) 0xFF;
  apic_id = id;
  timer_enabled = false;
  timer_initial = 0;
  timer_current = 0;
  timer_lvt = 0x10000;
  pic_master = 0;
  pic_slave = 0;
}

-- ApicShadowRead
unfoldable pub read_reg : Apic → ℕ → ℕ
read_reg s offset = if leb lapic_regs_size offset then 0 else s.regs (offset / 4)

abbrev pub irr : ℕ
irr = 0x200

abbrev pub isr : ℕ
isr = 0x100

-- The register of a bank that holds the vectors 32 i to 32 i + 31.
abbrev pub bank_reg : ℕ → ℕ → ℕ
bank_reg base i = (base + i * 16) / 4

-- ApicShadowInjectInterrupt: the vector, or 0 where it has no register.
unfoldable pub inject : Apic → ℕ → ℕ × Apic
inject s vector =
    let reg = bank_reg irr (vector / 32) in
    if ltb reg (lapic_regs_size / 4)
    then (vector, record s { regs = update s.regs reg (set_bit (s.regs reg) (vector % 32)) })
    else (0, s)

-- The loops of ApicShadowEoi and ApicGetPendingInterrupt: the last i below n whose register is not 0.
unfoldable pub highest_nonzero : Array ℕ → ℕ → ℕ → Option ℕ
highest_nonzero regs base zero = none
highest_nonzero regs base (suc i) =
    let rest = highest_nonzero regs base i in if regs (bank_reg base i) == 0 then rest else some i

-- 31 - AsmMsb32(x) on UINT32
abbrev pub bit_of : (ℕ → ℕ) → ℕ → ℕ
bit_of msb x = (31 + 2 ^ 32 - msb x) % 2 ^ 32

-- ApicShadowEoi
unfoldable pub eoi : (ℕ → ℕ) → Apic → Apic
eoi msb s = elim (highest_nonzero s.regs isr 8) [
  | none ↦ s
  | some i ↦
      let reg = bank_reg isr i in
      record s { regs = update s.regs reg (clear_bit (s.regs reg) (bit_of msb (s.regs reg))) }
]

-- ApicShadowWrite
unfoldable pub write_reg : (ℕ → ℕ) → Apic → ℕ → ℕ → Apic
write_reg msb s offset value =
    let stored = record s { regs = update s.regs (offset / 4) value } in
    if leb lapic_regs_size offset
    then s
    else if offset == 0x320
    then record stored { timer_lvt = value }
    else if offset == 0x380
    then record stored {
      timer_initial = value;
      timer_current = value;
      timer_enabled = ltb 0 value && not (bit_is_set stored.timer_lvt 16);
    }
    else if offset == 0xB0
    then eoi msb stored
    else stored

-- What ApicShadowTimerTick does when the count reaches 0.
unfoldable pub expire : Apic → Apic
expire s =
    let vector = s.timer_lvt % 256 in
    let s' = if leb 16 vector then (inject s vector).1 else s in
    if bit_is_set s'.timer_lvt 17
    then record s' { timer_current = s'.timer_initial }
    else record s' { timer_enabled = false }

-- ApicShadowTimerTick
unfoldable pub timer_tick : Apic → Apic
timer_tick s =
    let s' = record s { timer_current = dec32 s.timer_current } in
    if s.timer_enabled && ltb 0 s.timer_current
    then (if s'.timer_current == 0 then expire s' else s')
    else s

-- ApicGetPendingInterrupt: the vector where it returns TRUE.
unfoldable pub get_pending : (ℕ → ℕ) → Apic → Bool → Option ℕ × Apic
get_pending msb s has_vector =
    let found = if has_vector then highest_nonzero s.regs irr 8 else none in
    elim found [
      | none ↦ (none, s)
      | some i ↦
          let reg = bank_reg irr i in
          let bit = bit_of msb (s.regs reg) in
          let cleared = update s.regs reg (clear_bit (s.regs reg) bit) in
          let service = bank_reg isr i in
          (
            some (low32 (i * 32 + bit)),
            record s { regs = update cleared service (set_bit (cleared service) bit) },
          )
    ]

abbrev pub apic_base : ℕ
apic_base = 0xFEE00000

-- ApicHandleMmioAccess: whether the access is handled, *RegisterValue and the state.
unfoldable pub handle_mmio : (ℕ → ℕ) → Apic → ℕ → Bool → ℕ → Bool × ℕ × Apic
handle_mmio msb s address is_write value =
    if ltb address apic_base || leb 0xFEE01000 address
    then (false, value, s)
    else if is_write
    then (true, value, write_reg msb s (address - apic_base) (low32 value))
    else (true, read_reg s (address - apic_base), s)

-- Pic8259Write and Pic8259Read
abbrev pub pic_write : Apic → ℕ → ℕ → Apic
pic_write s port value =
    if port == 0x21
    then record s { pic_master = value }
    else if port == 0xA1
    then record s { pic_slave = value }
    else s

abbrev pub pic_read : Apic → ℕ → ℕ
pic_read s port = if port == 0x21 then s.pic_master else if port == 0xA1 then s.pic_slave else 0
