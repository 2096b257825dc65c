-- ===== src/Post/Tests.antt =====
-- A processor with eight threads, seen by POST.
use bemi_bios.Prelude.{
  ℕ, ◌+◌, ◌*◌, ◌/◌, ◌%◌, ◌^◌, ◌≡◌, refl, true, false, [], ◌==◌, if◌then◌else◌, Array, arith,
}
use bemi_bios.Efi.{success}
use bemi_bios.ApicShadow.{bit_is_set}
use bemi_bios.VmxExit.{Registers}
use bemi_bios.CpuidSpoof.{Source}
use bemi_bios.VmxSetup.{Processor, Vmx, intel, zero_vcpu, detect_vendor, backend_init}
use bemi_bios.Post.{validate_vmx, detect_topology}
use bemi_bios.Post.Support.{validate_vmx-backend_init}
use bemi_bios.Post.Threads.{detect_topology-squares}

abbrev answers : ℕ → Registers
answers leaf = record { eax = 0xA; ebx = 0x80000; ecx = 0x20; edx = 0 }

abbrev processor : Processor
processor = record {
  cpuid = answers;
  read_msr = λ msr. 5;
  cr0 = 0x80000001;
  cr3 = 0;
  gdt_base = 0;
  idt_base = 0;
}

abbrev vmx : Vmx
vmx = record {
  vcpus = λ i. zero_vcpu;
  cpu_count = 0;
  backend = false;
  cr4 = 0x20;
  pages = [];
  vm_writes = [];
}

vmx_is_valid : validate_vmx answers (λ msr. 5) ≡ true
unfolding validate_vmx
vmx_is_valid = refl

validate_vmx-backend_init_example :
    let (status, s') = backend_init processor vmx 8 in
    (detect_vendor answers ≡ (success, intel))
    × (status ≡ success)
    × (s'.backend ≡ true)
    × (bit_is_set s'.cr4 13 ≡ true)
    × (s'.cpu_count ≡ 8)
validate_vmx-backend_init_example = validate_vmx-backend_init processor vmx 8 vmx_is_valid refl refl

abbrev source : Source
source = record { cpuid = answers; cpuid_ex = λ leaf subleaf. answers leaf }

detect_topology-squares_example :
    let n = 0x80000 / 2 ^ 16 % 2 ^ 8 in (detect_topology source).0 ≡ n * n
detect_topology-squares_example = detect_topology-squares source (omega arith) (omega arith)

-- A memory in which the lowest bit of word 3 is stuck at 1.
abbrev stuck : Array ℕ → Array ℕ
stuck memory k = if k == 3 then memory k / 2 * 2 + 1 else memory k
