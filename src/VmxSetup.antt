-- ===== src/VmxSetup.antt =====
-- The set-up of VMX in hypervisor/vmx/vmxcore.c, up to the launch of a guest: the choice of vendor,
-- HypervisorBackendInit, VmxVcpuCreate with VmxSetupVmcs, and VmxVcpuRun. What the processor answers
-- (CPUID, MSRs, CR0, CR3 and the descriptor tables) is the record `Processor`; the pages that the
-- allocator returns and the status bytes of VMXON, VMCLEAR and VMPTRLD are arguments.
pub mod Rows
pub mod Vcpus
mod Tests
use bemi_bios.Prelude.{
  ℕ, ◌+◌, ◌/◌, ◌%◌, ◌^◌, Bool, true, false, ◌&&◌, ◌||◌, not, Option, none, some, List, [], ◌∷◌, ltb,
  leb, ◌==◌, if◌then◌else◌, Array, update, low32, bit_and, bit_or,
}
use bemi_bios.Efi.{
  EfiStatus, success, invalid_parameter, out_of_resources, unsupported, device_error,
}
use bemi_bios.ApicShadow.{bit_is_set, set_bit}
use bemi_bios.VmxExit.{Registers, vmx_guest_rsp, vmx_guest_rip, vmx_guest_rflags}

abbrev pub max_logical_processors : ℕ
max_logical_processors = 256

-- HYPERVISOR_VENDOR
pub data Vendor : Type 0 where
  intel : Vendor
  amd : Vendor
  unknown : Vendor

pub record Processor : Type 0 where
  pub cpuid : ℕ → Registers
  pub read_msr : ℕ → ℕ
  pub cr0 : ℕ
  pub cr3 : ℕ
  pub gdt_base : ℕ
  pub idt_base : ℕ

-- HypervisorDetectVendor for a pointer that is not NULL.
unfoldable pub detect_vendor : (ℕ → Registers) → EfiStatus × Vendor
detect_vendor cpuid =
    if bit_is_set (cpuid 1).ecx 5
    then (success, intel)
    else if bit_is_set (cpuid 0x80000001).ecx 2
    then (success, amd)
    else (unsupported, unknown)

-- VCPU_STATE
pub record VcpuState : Type 0 where
  pub vmcs_page : ℕ
  pub vmxon_page : ℕ
  pub active : Bool

-- gVcpuState and gCpuCount, whether gHypervisorBackend is filled in, CR4, the pages that are
-- allocated, and the calls of BemiVmWrite since the last VMPTRLD, both the newest first.
pub record Vmx : Type 0 where
  pub vcpus : Array VcpuState
  pub cpu_count : ℕ
  pub backend : Bool
  pub cr4 : ℕ
  pub pages : List ℕ
  pub vm_writes : List (ℕ × ℕ)

abbrev pub zero_vcpu : VcpuState
zero_vcpu = record { vmcs_page = 0; vmxon_page = 0; active = false }

-- HypervisorBackendInit. CR4.VMXE is set before the checks and stays set when they fail.
unfoldable pub backend_init : Processor → Vmx → ℕ → EfiStatus × Vmx
backend_init p s count =
    let s' : Vmx = record s {
      vcpus = λ i. if ltb i max_logical_processors then zero_vcpu else s.vcpus i;
      cpu_count = count;
      cr4 = set_bit s.cr4 13;
    } in
    if not (bit_is_set p.cr0 31) || not (bit_is_set p.cr0 0)
    then (unsupported, s')
    else if not (bit_is_set (p.read_msr 0x3A) 0)
    then (unsupported, s')
    else if not (bit_is_set (p.read_msr 0x3A) 2)
    then (unsupported, s')
    else (success, record s' { backend = true })

-- AdjustCtrl
unfoldable pub adjust_ctrl : Processor → ℕ → ℕ → ℕ
adjust_ctrl p msr requested =
    let value = p.read_msr msr in bit_and (bit_or requested (low32 value)) (value / 2 ^ 32 % 2 ^ 32)

-- The fields that VmxSetupVmcs writes, in order, with their values, for a value of CR4.
unfoldable pub vmcs_rows : Processor → ℕ → ℕ → ℕ → List (ℕ × ℕ)
vmcs_rows p cr4 entry_point stack_pointer =
    (0x4000, adjust_ctrl p 0x481 9)
    ∷ (0x4002, adjust_ctrl p 0x482 0x11000000)
    ∷ (0x401E, adjust_ctrl p 0x48B 0x100022)
    ∷ (0x400C, adjust_ctrl p 0x485 0x200204)
    ∷ (0x4012, adjust_ctrl p 0x484 0x8000)
    ∷ (0x4004, 0)
    ∷ (0x4006, 0)
    ∷ (0x6C00, p.cr0)
    ∷ (0x6C02, p.cr3)
    ∷ (0x6C04, cr4)
    ∷ (0x2C02, p.read_msr 0xC0000080)
    ∷ (0x802, 8)
    ∷ (0x806, 0x10)
    ∷ (0x800, 0x10)
    ∷ (0x804, 0x10)
    ∷ (0x808, 0x10)
    ∷ (0x80A, 0x10)
    ∷ (0x80C, 0)
    ∷ (0x80E, 0x18)
    ∷ (0x608, 0)
    ∷ (0x618, 0)
    ∷ (0x600, 0)
    ∷ (0x610, 0)
    ∷ (0x620, 0)
    ∷ (0x628, 0)
    ∷ (0x630, 0)
    ∷ (0x638, 0)
    ∷ (0x658, p.gdt_base)
    ∷ (0x65C, p.idt_base)
    ∷ (0x6800, p.cr0)
    ∷ (0x6802, p.cr3)
    ∷ (0x6804, cr4)
    ∷ (vmx_guest_rflags, 2)
    ∷ (0x2806, p.read_msr 0xC0000080)
    ∷ (vmx_guest_rip, entry_point)
    ∷ (vmx_guest_rsp, stack_pointer)
    ∷ []

-- The calls of BemiVmWrite in the order of a list, added to the log.
unfoldable pub write_rows : List (ℕ × ℕ) → List (ℕ × ℕ) → List (ℕ × ℕ)
write_rows [] writes = writes
write_rows ((field, value) ∷ rows) writes = write_rows rows ((field, value) ∷ writes)

-- BemiVmWrite, the routine of hypervisor/vmx/vmxasm.nasm, on the current VMCS. It gets the field in RCX
-- and the value in RDX and executes `vmwrite rdx, rcx`, whose first operand is the field and whose
-- second is the value. Which encodings the processor has is an argument; for others VMWRITE fails, and
-- no caller looks at the status.
unfoldable pub vm_write : (ℕ → Bool) → Array ℕ → ℕ → ℕ → Array ℕ
vm_write has_field vmcs field value = if has_field value then update vmcs value field else vmcs

-- The current VMCS after the calls of a log.
unfoldable pub replay : (ℕ → Bool) → List (ℕ × ℕ) → Array ℕ → Array ℕ
replay has_field [] vmcs = vmcs
replay has_field ((field, value) ∷ writes) vmcs =
    vm_write has_field (replay has_field writes vmcs) field value

-- VmxSetupVmcs
unfoldable pub setup_vmcs : Processor → Vmx → ℕ → ℕ → Vmx
setup_vmcs p s entry_point stack_pointer = record s {
  vm_writes = write_rows (vmcs_rows p s.cr4 entry_point stack_pointer) s.vm_writes;
}

-- What the allocator and the three instructions answer to one call of VmxVcpuCreate.
pub record Answers : Type 0 where
  pub vmxon_region : Option ℕ
  pub vmcs_region : Option ℕ
  pub vmxon : ℕ
  pub vmclear : ℕ
  pub vmptrld : ℕ

-- VmxVcpuCreate after the allocations.
unfoldable pub enter_vmx : Processor → Answers → Vmx → ℕ → ℕ → ℕ → ℕ → ℕ → EfiStatus × Vmx
enter_vmx p a s id entry_point stack_pointer vmxon_page vmcs_page =
    let inactive : VcpuState = record {
      vmcs_page = vmcs_page;
      vmxon_page = vmxon_page;
      active = false;
    } in
    let s' : Vmx = record s {
      vcpus = update s.vcpus id inactive;
      pages = vmcs_page ∷ vmxon_page ∷ s.pages;
    } in
    if not (a.vmxon == 0)
    then (device_error, s')
    else if not (a.vmclear == 0)
    then (device_error, s')
    else if not (a.vmptrld == 0)
    then (device_error, s')
    else (
      success,
      record (setup_vmcs p (record s' { vm_writes = [] }) entry_point stack_pointer) {
        vcpus = update s'.vcpus id (record inactive { active = true });
      },
    )

-- VmxVcpuCreate
unfoldable pub vcpu_create : Processor → Answers → Vmx → ℕ → ℕ → ℕ → EfiStatus × Vmx
vcpu_create p a s id entry_point stack_pointer =
    if leb max_logical_processors id then (invalid_parameter, s) else elim a.vmxon_region [
      | none ↦ (out_of_resources, s)
      | some vmxon_page ↦ elim a.vmcs_region [
        | none ↦ (out_of_resources, s)
        | some vmcs_page ↦ enter_vmx p a s id entry_point stack_pointer vmxon_page vmcs_page
      ]
    ]

-- VmxVcpuRun, by the status byte of VMPTRLD, when VMLAUNCH comes back: it then has failed.
unfoldable pub vcpu_run : Vmx → ℕ → ℕ → EfiStatus
vcpu_run s id vmptrld =
    if leb max_logical_processors id || not (s.vcpus id).active
    then invalid_parameter
    else if not (vmptrld == 0)
    then device_error
    else device_error
