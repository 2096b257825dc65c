-- ===== src/SvmCore/Tests.antt =====
-- An SVM guest.
use bemi_bios.Prelude.{
  ℕ, ◌+◌, ◌*◌, ◌%◌, ◌^◌, ◌≡◌, refl, true, List, [], ◌∷◌, ◌||◌, ◌==◌, if◌then◌else◌, Array, add64,
  low32,
}
use bemi_bios.ApicShadow.{apic_init}
use bemi_bios.ApicShadow.LeadingZeros.{leading_zeros}
use bemi_bios.VmxExit.{Cpu}
use bemi_bios.SvmCore.{
  SvmProcessor, Svm, SvmGuest, VmRun, zero_svm_vcpu, svm_exit_info, svm_exit_handler,
}
use bemi_bios.SvmCore.Exits.{svm_exit_handler-msr, svm_exit_handler-keeps}

abbrev cpu : Cpu
cpu = record {
  cpuid = λ leaf subleaf. record { eax = leaf; ebx = 2; ecx = 3; edx = 4 };
  read_msr = λ index. 0x500;
  msb = leading_zeros;
}

abbrev exit_with : ℕ → Array ℕ
exit_with code offset =
    if offset == 0x70
    then code
    else if offset == 0x78
    then 0xFEE000A0
    else if offset == 0x138
    then 0x1000
    else 0

abbrev guest : ℕ → SvmGuest
guest code = record {
  area = λ k. if k == 2 then 0xC0000080 else k + 5;
  vmcb = exit_with code;
  msr_writes = [];
  apic = apic_init 0;
}

svm_exit_handler-msr_example :
    let v' = svm_exit_handler cpu (guest 0x7C) in
    let index = low32 0xC0000080 in
    let value = low32 5 + 8 * 2 ^ 32 % 2 ^ 64 in
    (v'.msr_writes ≡ (if index == 0x3A || index == 0x13C then [] else (index, value) ∷ []))
    × ((k : ℕ) → v'.area k ≡ (guest 0x7C).area k)
svm_exit_handler-msr_example = svm_exit_handler-msr cpu (guest 0x7C) refl

svm_exit_handler-keeps_example :
    let v = guest 0x78 in
    let v' = svm_exit_handler cpu v in
    ((k : ℕ) → v'.area k ≡ v.area k)
    × (v'.vmcb 0x148 ≡ v.vmcb 0x148)
    × (v'.msr_writes ≡ v.msr_writes)
    × (v'.apic ≡ v.apic)
    × (v'.vmcb 0x138 ≡ add64 0x1000 (svm_exit_info v).instruction_length)
svm_exit_handler-keeps_example = svm_exit_handler-keeps cpu (guest 0x78) refl

abbrev svm_processor : SvmProcessor
svm_processor = record {
  cpuid = λ leaf. record { eax = 0; ebx = 0; ecx = 4; edx = 0 };
  read_msr = λ index. 0x500;
  cr0 = 0x80000001;
  cr3 = 0x1000;
  cr4 = 0x20;
}

abbrev svm : Svm
svm = record {
  vcpus = λ i. record zero_svm_vcpu { active = true };
  cpu_count = 300;
  msr_writes = [];
  vmcbs = λ page offset. 0;
}

abbrev entries : List VmRun
entries =
    record { result = 0; vmcb = exit_with 0x78 } ∷ record { result = 1; vmcb = exit_with 0x78 } ∷ []
