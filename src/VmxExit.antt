-- ===== src/VmxExit.antt =====
-- The exit handling of hypervisor/vmx/vmxcore.c: BemiVmxExitHandler and the handlers that it calls.
-- The file calls BemiVmRead with a field alone and takes its value from the call, while the declaration
-- has a second argument for the value and returns a status: what such a call returns is a parameter, the
-- function `vm_read`. The calls of BemiVmWrite and of AsmWriteMsr64 are logs, so nothing is assumed of
-- the VMCS here. AsmCpuidEx, AsmReadMsr64 and AsmMsb32 are the fields of `Cpu`.
pub mod Handlers
pub mod Dispatch
mod Tests
use bemi_bios.Prelude.{
  ℕ, zero, suc, ◌+◌, ◌-◌, ◌*◌, ◌/◌, ◌%◌, ◌^◌, Bool, true, false, ◌&&◌, ◌||◌, not, Option, none,
  some, List, [], ◌∷◌, ltb, ◌==◌, if◌then◌else◌, Array, update, add64, low32, bit_or,
}
use bemi_bios.ApicShadow.{Apic, bit_is_set, clear_bit, get_pending}

pub record Registers : Type 0 where
  pub eax : ℕ
  pub ebx : ℕ
  pub ecx : ℕ
  pub edx : ℕ

pub record Cpu : Type 0 where
  pub cpuid : ℕ → ℕ → Registers
  pub read_msr : ℕ → ℕ
  pub msb : ℕ → ℕ

-- GUEST_STATE, as far as this file uses it. The sixteen general registers stand at the start of the
-- C struct, in the order rax, rbx, rcx, rdx, rsi, rdi, rbp, rsp, r8 to r15, and are an array here,
-- as GprArray reads them.
pub record GuestState : Type 0 where
  pub gprs : Array ℕ
  pub rip : ℕ
  pub rflags : ℕ
  pub cr0 : ℕ
  pub cr3 : ℕ
  pub cr4 : ℕ
  pub efer : ℕ

-- VM_EXIT_INFO, the fields that a handler reads.
pub record ExitInfo : Type 0 where
  pub reason : ℕ
  pub qualification : ℕ
  pub instruction_length : ℕ

-- What the handler works on: the stub's save area of 15 registers, what BemiVmRead returns for a field,
-- the calls of BemiVmWrite and AsmWriteMsr64, the newest first, and the APIC shadow.
pub record Vcpu : Type 0 where
  pub save_area : Array ℕ
  pub vm_read : ℕ → ℕ
  pub vm_writes : List (ℕ × ℕ)
  pub msr_writes : List (ℕ × ℕ)
  pub apic : Apic

abbrev pub vmx_guest_rsp : ℕ
vmx_guest_rsp = 0x681C

abbrev pub vmx_guest_rip : ℕ
vmx_guest_rip = 0x681E

abbrev pub vmx_guest_rflags : ℕ
vmx_guest_rflags = 0x6820

abbrev pub vm_entry_intr_info : ℕ
vm_entry_intr_info = 0x4016

abbrev pub rax : ℕ
rax = 0

abbrev pub rbx : ℕ
rbx = 1

abbrev pub rcx : ℕ
rcx = 2

abbrev pub rdx : ℕ
rdx = 3

abbrev pub rsp : ℕ
rsp = 7

-- GuestRip += InstructionLength
abbrev pub advance : ExitInfo → GuestState → GuestState
advance info g = record g { rip = add64 g.rip info.instruction_length }

-- HandleCpuidExit
unfoldable pub handle_cpuid : Cpu → ExitInfo → GuestState → GuestState
handle_cpuid cpu info g =
    let leaf = low32 (g.gprs rax) in
    let r = cpu.cpuid leaf (low32 (g.gprs rcx)) in
    let ecx = if leaf == 1 then clear_bit (clear_bit r.ecx 31) 5 else r.ecx in
    let eax = if leaf == 0 && ltb 0x1F r.eax then 0x1F else r.eax in
    advance info (record g {
      gprs = update (update (update (update g.gprs rax eax) rbx r.ebx) rcx ecx) rdx r.edx;
    })

-- The two halves of an MSR value put together; they have no bit in common, so | is +.
abbrev pub msr_value : GuestState → ℕ
msr_value g = low32 (g.gprs rax) + g.gprs rdx * 2 ^ 32 % 2 ^ 64

-- HandleMsrExit, with the log of writes.
unfoldable pub handle_msr : Cpu → ExitInfo → GuestState → List (ℕ × ℕ) → GuestState × List (ℕ × ℕ)
handle_msr cpu info g writes =
    let index = low32 (g.gprs rcx) in
    let value = cpu.read_msr index in
    if info.reason == 0x1F
    then (
      advance info
          (record g { gprs = update (update g.gprs rax (low32 value)) rdx (value / 2 ^ 32) }),
      writes,
    )
    else (
      advance info g,
      (if index == 0x3A || index == 0x13C then writes else (index, msr_value g) ∷ writes),
    )

-- The control register that a MOV from CR reads; 0 for those that the handler does not know.
abbrev pub read_cr : GuestState → ℕ → ℕ
read_cr g number =
    if number == 0 then g.cr0 else if number == 3 then g.cr3 else if number == 4 then g.cr4 else 0

abbrev pub write_cr : GuestState → ℕ → ℕ → GuestState
write_cr g number value =
    if number == 0
    then record g { cr0 = value }
    else if number == 3
    then record g { cr3 = value }
    else if number == 4
    then record g { cr4 = value }
    else g

-- HandleCrAccess
unfoldable pub handle_cr_access : ExitInfo → GuestState → GuestState
handle_cr_access info g =
    let number = info.qualification % 16 in
    let access = info.qualification / 2 ^ 4 % 4 in
    let register = info.qualification / 2 ^ 8 % 16 in
    if access == 0
    then advance info (write_cr g number (g.gprs register))
    else advance info (record g { gprs = update g.gprs register (read_cr g number) })

-- HandleIoExit
abbrev pub handle_io : ExitInfo → GuestState → GuestState
handle_io info g = advance info g

-- BemiVmxExitHandler up to the switch: the save area has no slot for rsp, which comes from the VMCS.
unfoldable pub load_state : Vcpu → GuestState
load_state v = record {
  gprs = λ k.
      if k == rsp
      then v.vm_read vmx_guest_rsp
      else if ltb k rsp
      then v.save_area k
      else v.save_area (k - 1);
  rip = v.vm_read vmx_guest_rip;
  rflags = v.vm_read vmx_guest_rflags;
  cr0 = v.vm_read 0x6800;
  cr3 = v.vm_read 0x6802;
  cr4 = v.vm_read 0x6804;
  efer = v.vm_read 0x2806;
}

-- The reasons after which the guest resumes at the same instruction.
abbrev pub resumes : ℕ → Bool
resumes reason = reason == 0x01 || reason == 0x07 || reason == 0x34

-- The switch of BemiVmxExitHandler.
unfoldable pub dispatch : Cpu → ExitInfo → GuestState → List (ℕ × ℕ) → GuestState × List (ℕ × ℕ)
dispatch cpu info g writes =
    if info.reason == 0x0A
    then (handle_cpuid cpu info g, writes)
    else if info.reason == 0x1F || info.reason == 0x20
    then handle_msr cpu info g writes
    else if info.reason == 0x1C
    then (handle_cr_access info g, writes)
    else if info.reason == 0x1E
    then (handle_io info g, writes)
    else if resumes info.reason
    then (g, writes)
    else (advance info g, writes)

-- VmxWriteGuestState
unfoldable pub write_guest_state : List (ℕ × ℕ) → GuestState → List (ℕ × ℕ)
write_guest_state writes g =
    (vmx_guest_rflags, g.rflags)
    ∷ (0x2806, g.efer)
    ∷ (0x6804, g.cr4)
    ∷ (0x6802, g.cr3)
    ∷ (0x6800, g.cr0)
    ∷ (vmx_guest_rsp, g.gprs rsp)
    ∷ (vmx_guest_rip, g.rip)
    ∷ writes

-- The general registers back into the 15 slots of the save area, and the guest state to the VMCS.
unfoldable pub store_state : Vcpu → GuestState → List (ℕ × ℕ) → Vcpu
store_state v g writes = record v {
  save_area =
      λ k. if ltb k rsp then g.gprs k else if ltb k 15 then g.gprs (k + 1) else v.save_area k;
  vm_writes = write_guest_state v.vm_writes g;
  msr_writes = writes;
}

-- The end of BemiVmxExitHandler. The request is taken from the APIC before the test of IF.
unfoldable pub deliver_pending : Cpu → GuestState → Vcpu → Vcpu
deliver_pending cpu g v =
    let (taken, apic) = get_pending cpu.msb v.apic true in
    let v' = record v { apic = apic } in
    elim taken [
      | none ↦ v'
      | some vector ↦
          if bit_is_set g.rflags 9
          then record v' { vm_writes = (vm_entry_intr_info, bit_or vector 0x700) ∷ v'.vm_writes }
          else v'
    ]

abbrev pub exit_info : Vcpu → ExitInfo
exit_info v = record {
  reason = v.vm_read 0x4402;
  qualification = v.vm_read 0x6400;
  instruction_length = v.vm_read 0x440C;
}

-- BemiVmxExitHandler
unfoldable pub exit_handler : Cpu → Vcpu → Vcpu
exit_handler cpu v =
    let (g, writes) = dispatch cpu (exit_info v) (load_state v) v.msr_writes in
    deliver_pending cpu g (store_state v g writes)
