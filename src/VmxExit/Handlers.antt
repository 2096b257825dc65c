-- ===== src/VmxExit/Handlers.antt =====
-- The single handlers: CPUID, MSR and control register exits.
use bemi_bios.Prelude.{
  ℕ, ◌+◌, ◌*◌, ◌/◌, ◌%◌, ◌^◌, ◌<◌, ◌≡◌, ◌⊎◌, inl, inr, refl, ◌∙◌, false, ◌||◌, List, ◌∷◌, ◌==◌,
  if◌then◌else◌, update, add64, low32, arith,
}
use bemi_bios.ApicShadow.{bit_is_set, clear_bit}
use bemi_bios.VmxExit.{
  Cpu, GuestState, ExitInfo, advance, rax, rbx, rcx, rdx, handle_cpuid, handle_msr, read_cr,
  write_cr, handle_cr_access,
}

clear_bit-gone :
    (x : ℕ) → (bit_is_set (clear_bit x 31) 31 ≡ false) × (bit_is_set (clear_bit x 5) 5 ≡ false)
clear_bit-gone x = (ground arith, ground arith)

clear_bit-other : (x : ℕ) → bit_is_set (clear_bit x 5) 31 ≡ bit_is_set x 31
clear_bit-other x = ground arith

-- A CPUID exit for leaf 1 shows the guest neither the hypervisor bit nor the VMX bit, and otherwise
-- what the processor returns for the leaf and subleaf in eax and ecx.
pub handle_cpuid-hides :
    (cpu : Cpu) (info : ExitInfo) (g : GuestState)
    → low32 (g.gprs rax) ≡ 1
    → let r = cpu.cpuid 1 (low32 (g.gprs rcx)) in
      let g' = handle_cpuid cpu info g in
      (bit_is_set (g'.gprs rcx) 31 ≡ false)
      × (bit_is_set (g'.gprs rcx) 5 ≡ false)
      × (g'.gprs rax ≡ r.eax)
      × (g'.gprs rbx ≡ r.ebx)
      × (g'.gprs rdx ≡ r.edx)
      × (g'.rip ≡ add64 g.rip info.instruction_length)
unfolding handle_cpuid
handle_cpuid-hides cpu info g leaf =
    let r = cpu.cpuid 1 (low32 (g.gprs rcx)) in
    rw leaf (
      clear_bit-other (clear_bit r.ecx 31) ∙ (clear_bit-gone r.ecx).0,
      (clear_bit-gone (clear_bit r.ecx 31)).1,
      refl,
      refl,
      refl,
      refl,
    )

-- A WRMSR of what a RDMSR has just put into the guest's registers writes the MSR's own value, of 64
-- bits, to it, unless it is one of the two protected MSRs, to which no WRMSR writes.
pub handle_msr-read_write :
    (cpu : Cpu) (reading writing : ExitInfo) (g : GuestState) (log : List (ℕ × ℕ))
    → reading.reason ≡ 0x1F
    → writing.reason ≡ 0x20
    → cpu.read_msr (low32 (g.gprs rcx)) < 2 ^ 64
    → let index = low32 (g.gprs rcx) in
      let (read, _) = handle_msr cpu reading g log in
      let (_, log') = handle_msr cpu writing read log in
      log' ≡ (if index == 0x3A || index == 0x13C then log else (index, cpu.read_msr index) ∷ log)
unfolding handle_msr
handle_msr-read_write cpu reading writing g log r w bound =
    let value = cpu.read_msr (low32 (g.gprs rcx)) in
    let read : handle_msr cpu reading g log ≡ (
      advance reading
          (record g { gprs = update (update g.gprs rax (low32 value)) rdx (value / 2 ^ 32) }),
      log,
    ) =
      rw (handle_msr, r) refl in
    let whole : low32 (low32 value) + value / 2 ^ 32 * 2 ^ 32 % 2 ^ 64 ≡ value =
      omega (arith, bound) in
    rw read (rw (handle_msr, w, whole) refl)

cr_access-to :
    (info : ExitInfo) (g : GuestState) (number register : ℕ)
    → info.qualification % 16 ≡ number
    → info.qualification / 2 ^ 4 % 4 ≡ 0
    → info.qualification / 2 ^ 8 % 16 ≡ register
    → handle_cr_access info g ≡ advance info (write_cr g number (g.gprs register))
unfolding handle_cr_access
cr_access-to info g number register n a r = rw (handle_cr_access, n, a, r) refl

cr_access-from :
    (info : ExitInfo) (g : GuestState) (number register : ℕ)
    → info.qualification % 16 ≡ number
    → info.qualification / 2 ^ 4 % 4 ≡ 1
    → info.qualification / 2 ^ 8 % 16 ≡ register
    → handle_cr_access info g
      ≡ advance info (record g { gprs = update g.gprs register (read_cr g number) })
unfolding handle_cr_access
cr_access-from info g number register n a r = rw (handle_cr_access, n, a, r) refl

write_cr-gprs : (g : GuestState) (number value : ℕ) → (write_cr g number value).gprs ≡ g.gprs
write_cr-gprs g number value = ground arith

read_cr-write_cr :
    (info : ExitInfo) (g : GuestState) (number value : ℕ)
    → (number ≡ 0) ⊎ ((number ≡ 3) ⊎ (number ≡ 4))
    → read_cr (advance info (write_cr g number value)) number ≡ value
read_cr-write_cr info g number value (inl e) = rw e refl
read_cr-write_cr info g number value (inr (inl e)) = rw e refl
read_cr-write_cr info g number value (inr (inr e)) = rw e refl

-- A MOV to CR0, CR3 or CR4 from one of the sixteen registers of GUEST_STATE stores that register's
-- value there, and a MOV from the same control register to the same register number then leaves all
-- general registers as they were.
pub handle_cr_access-round_trip :
    (to from : ExitInfo) (g : GuestState) (number register : ℕ)
    → (number ≡ 0) ⊎ ((number ≡ 3) ⊎ (number ≡ 4))
    → register < 16
    → to.qualification ≡ number + register * 2 ^ 8
    → from.qualification ≡ number + 2 ^ 4 + register * 2 ^ 8
    → let g' = handle_cr_access to g in
      (read_cr g' number ≡ g.gprs register)
      × ((k : ℕ) → (handle_cr_access from g').gprs k ≡ g.gprs k)
handle_cr_access-round_trip to from g number register known h t f =
    let value = g.gprs register in
    let moved = cr_access-to to g number register (omega arith) (omega arith) (omega arith) in
    let stored = advance to (write_cr g number value) in
    let back =
      cr_access-from from stored number register (omega arith) (omega arith) (omega arith) in
    let kept : read_cr stored number ≡ value = read_cr-write_cr to g number value known in
    let same : stored.gprs ≡ g.gprs = write_cr-gprs g number value in
    rw moved (kept, λ k. rw back (rw (kept, same) (ground arith)))
