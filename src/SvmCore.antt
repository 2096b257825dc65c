-- ===== src/SvmCore.antt =====
-- The SVM side of the hypervisor, hypervisor/svm/svmcore.c. A VMCB is an array from the byte offset
-- of a field to its value. The CPUID, MSR, control register and I/O exits call the handlers of
-- hypervisor/vmx/vmxcore.c, which VmxExit models.
pub mod Create
pub mod Exits
mod Tests
use bemi_bios.Prelude.{
  ℕ, zero, suc, ◌+◌, ◌-◌, ◌*◌, ◌/◌, ◌%◌, ◌^◌, Bool, true, false, ◌&&◌, ◌||◌, not, Option, none,
  some, List, [], ◌∷◌, ltb, leb, ◌==◌, if◌then◌else◌, Array, update, add64, low32, ◌⊎◌, inl, inr,
}
use bemi_bios.Efi.{
  EfiStatus, success, invalid_parameter, out_of_resources, unsupported, device_error,
}
use bemi_bios.ApicShadow.{Apic, bit_is_set, set_bit, handle_mmio}
use bemi_bios.VmxExit.{
  Registers, Cpu, GuestState, ExitInfo, rax, rsp, handle_cpuid, handle_msr, handle_cr_access,
  handle_io,
}

-- SVM_VCPU_STATE
pub record SvmVcpu : Type 0 where
  pub vmcb_page : ℕ
  pub hsave_page : ℕ
  pub active : Bool

-- gSvmVcpuState and gSvmCpuCount, the log of MSR writes, the newest first, and the VMCBs by the
-- address of their page.
pub record Svm : Type 0 where
  pub vcpus : Array SvmVcpu
  pub cpu_count : ℕ
  pub msr_writes : List (ℕ × ℕ)
  pub vmcbs : Array (Array ℕ)

-- What SvmInit and SvmCreateVcpu read of the processor.
pub record SvmProcessor : Type 0 where
  pub cpuid : ℕ → Registers
  pub read_msr : ℕ → ℕ
  pub cr0 : ℕ
  pub cr3 : ℕ
  pub cr4 : ℕ

abbrev pub max_vcpus : ℕ
max_vcpus = 256

abbrev pub zero_svm_vcpu : SvmVcpu
zero_svm_vcpu = record { vmcb_page = 0; hsave_page = 0; active = false }

-- SvmInit
unfoldable pub svm_init : SvmProcessor → Svm → ℕ → EfiStatus × Svm
svm_init p s count =
    let s' : Svm = record s {
      vcpus = λ i. if ltb i max_vcpus then zero_svm_vcpu else s.vcpus i;
      cpu_count = count;
    } in
    let efer = p.read_msr 0xC0000080 in
    if not (bit_is_set (p.cpuid 0x80000001).ecx 2)
    then (unsupported, s')
    else if bit_is_set efer 12
    then (success, s')
    else (success, record s' { msr_writes = (0xC0000080, set_bit efer 12) ∷ s.msr_writes })

-- The VMCB that SvmCreateVcpu fills in, in a page of zeros.
unfoldable pub initial_vmcb : SvmProcessor → ℕ → ℕ → Array ℕ
initial_vmcb p entry_point stack_pointer offset =
    if offset == 0x138
    then entry_point
    else if offset == 0x148
    then stack_pointer
    else if offset == 0x100
    then p.cr0
    else if offset == 0x110
    then p.cr3
    else if offset == 0x118
    then p.cr4
    else if offset == 0x140
    then 2
    else if offset == 0
    then 1
    else if offset == 0xC
    then 0xCA0
    else 0

-- SvmCreateVcpu with the two pages that it gets; `none` for a write beyond gSvmVcpuState.
unfoldable pub fill_vcpu : SvmProcessor → Svm → ℕ → ℕ → ℕ → ℕ → ℕ → Option (EfiStatus × Svm)
fill_vcpu p s id entry_point stack_pointer vmcb_page hsave_page =
    if leb max_vcpus id
    then none
    else some (
      success,
      record s {
        vcpus =
            update s.vcpus id
              (record { vmcb_page = vmcb_page; hsave_page = hsave_page; active = true });
        msr_writes = (0xC0010117, hsave_page) ∷ s.msr_writes;
        vmcbs = update s.vmcbs vmcb_page (initial_vmcb p entry_point stack_pointer);
      },
    )

-- SvmCreateVcpu, by what its two allocations return.
unfoldable pub create_vcpu :
    SvmProcessor → Svm → Option ℕ → Option ℕ → ℕ → ℕ → ℕ → Option (EfiStatus × Svm)
create_vcpu p s vmcb hsave id entry_point stack_pointer =
    if leb s.cpu_count id then some (invalid_parameter, s) else elim vmcb [
      | none ↦ some (out_of_resources, s)
      | some vmcb_page ↦ elim hsave [
        | none ↦ some (out_of_resources, s)
        | some hsave_page ↦ fill_vcpu p s id entry_point stack_pointer vmcb_page hsave_page
      ]
    ]

-- What BemiSvmExitHandler works on: GuestGprBase, the VMCB, the log of MSR writes and the APIC
-- shadow.
pub record SvmGuest : Type 0 where
  pub area : Array ℕ
  pub vmcb : Array ℕ
  pub msr_writes : List (ℕ × ℕ)
  pub apic : Apic

-- The guest state that the handler starts from; what it does not load is 0.
unfoldable pub load_guest : SvmGuest → GuestState
load_guest v = record {
  gprs = λ k. if k == rsp then v.vmcb 0x148 else if ltb k rsp then v.area k else v.area (k - 1);
  rip = v.vmcb 0x138;
  rflags = v.vmcb 0x140;
  cr0 = v.vmcb 0x100;
  cr3 = v.vmcb 0x110;
  cr4 = v.vmcb 0x118;
  efer = 0;
}

-- The instruction's length is the distance to the next address, where that lies ahead, or 3.
unfoldable pub svm_exit_info : SvmGuest → ExitInfo
svm_exit_info v = record {
  reason = v.vmcb 0x70;
  qualification = v.vmcb 0x78;
  instruction_length = if ltb (v.vmcb 0x138) (v.vmcb 0x90) then v.vmcb 0x90 - v.vmcb 0x138 else 3;
}

abbrev pub next_byte : GuestState → GuestState
next_byte g = record g { rip = add64 g.rip 1 }

-- ExitQualification & 0xFFFFFFFFFFFFF000
abbrev pub fault_page : ExitInfo → ℕ
fault_page info = info.qualification / 4096 * 4096

-- (rax & ~0xFFFFFFFF) | (value & 0xFFFFFFFF)
abbrev pub with_low32 : ℕ → ℕ → ℕ
with_low32 x value = x / 2 ^ 32 * 2 ^ 32 + low32 value

-- The case of a nested page fault, 0x400.
unfoldable pub handle_npf : (ℕ → ℕ) → ExitInfo → GuestState → Apic → GuestState × Apic
handle_npf msb info g apic =
    let is_write = bit_is_set info.qualification 5 in
    let (handled, value, apic') = handle_mmio msb apic (fault_page info) is_write (g.gprs rax) in
    if leb 0xFEC00000 (fault_page info) && ltb (fault_page info) 0xFF000000
    then (
      next_byte (
          if handled && not is_write
          then record g { gprs = update g.gprs rax (with_low32 (g.gprs rax) value) }
          else g),
      apic',
    )
    else (next_byte g, apic)

-- The exit codes of control register accesses.
abbrev pub is_cr_exit : ℕ → Bool
is_cr_exit reason =
    reason == 0
    || (reason == 3 || (reason == 4 || (reason == 0x10 || (reason == 0x13 || reason == 0x14))))

-- What the switch of BemiSvmExitHandler leaves.
pub record Handled : Type 0 where
  pub guest : GuestState
  pub msr_writes : List (ℕ × ℕ)
  pub apic : Apic

unfoldable pub svm_dispatch : Cpu → ExitInfo → GuestState → List (ℕ × ℕ) → Apic → Handled
svm_dispatch cpu info g writes apic =
    let (msr_guest, msr_log) = handle_msr cpu info g writes in
    let (npf_guest, npf_apic) = handle_npf cpu.msb info g apic in
    if info.reason == 0x72
    then record { guest = handle_cpuid cpu info g; msr_writes = writes; apic = apic }
    else if info.reason == 0x7C
    then record { guest = msr_guest; msr_writes = msr_log; apic = apic }
    else if is_cr_exit info.reason
    then record { guest = handle_cr_access info g; msr_writes = writes; apic = apic }
    else if info.reason == 0x7B
    then record { guest = handle_io info g; msr_writes = writes; apic = apic }
    else if info.reason == 0x78
    then record {
      guest = record g { rip = add64 g.rip info.instruction_length };
      msr_writes = writes;
      apic = apic;
    }
    else if info.reason == 0x400
    then record { guest = npf_guest; msr_writes = writes; apic = npf_apic }
    else record { guest = next_byte g; msr_writes = writes; apic = apic }

-- The guest state back into GuestGprBase and the VMCB.
unfoldable pub store_vmcb : Array ℕ → GuestState → Array ℕ
store_vmcb vmcb g =
    update
      (update
        (update (update (update (update vmcb 0x138 g.rip) 0x148 (g.gprs rsp)) 0x100 g.cr0) 0x110
          g.cr3)
        0x118 g.cr4)
      0x140 g.rflags

unfoldable pub store_guest : SvmGuest → Handled → SvmGuest
store_guest v h = record {
  area = λ k.
      if ltb k rsp then h.guest.gprs k else if ltb k 15 then h.guest.gprs (k + 1) else v.area k;
  vmcb = store_vmcb v.vmcb h.guest;
  msr_writes = h.msr_writes;
  apic = h.apic;
}

-- BemiSvmExitHandler; its status is always success.
unfoldable pub svm_exit_handler : Cpu → SvmGuest → SvmGuest
svm_exit_handler cpu v =
    store_guest v (svm_dispatch cpu (svm_exit_info v) (load_guest v) v.msr_writes v.apic)

-- A return of BemiSvmVmRun: its result, and the VMCB as the processor leaves it. The registers of the
-- guest are in no place that SvmRunVcpu reads.
pub record VmRun : Type 0 where
  pub result : ℕ
  pub vmcb : Array ℕ

-- The loop of SvmRunVcpu over the returns of BemiSvmVmRun; `inr` while it has not returned.
unfoldable pub run_loop : Cpu → SvmGuest → List VmRun → (EfiStatus × SvmGuest) ⊎ SvmGuest
run_loop cpu v [] = inr v
run_loop cpu v (r ∷ rs) =
    let ran : SvmGuest = record v { vmcb = r.vmcb } in
    let rest = run_loop cpu (svm_exit_handler cpu ran) rs in
    if r.result == 0 then rest else inl (device_error, ran)

-- SvmRunVcpu for an array index in range: guestGpr starts as zeros.
unfoldable pub run_vcpu : Cpu → Svm → Apic → ℕ → List VmRun → (EfiStatus × SvmGuest) ⊎ SvmGuest
run_vcpu cpu s apic id rs =
    let start : SvmGuest = record {
      area = λ k. 0;
      vmcb = s.vmcbs (s.vcpus id).vmcb_page;
      msr_writes = s.msr_writes;
      apic = apic;
    } in
    if leb s.cpu_count id || not (s.vcpus id).active
    then inl (invalid_parameter, start)
    else run_loop cpu start rs
