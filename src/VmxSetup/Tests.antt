-- ===== src/VmxSetup/Tests.antt =====
-- The second processor of a machine is set up.
use bemi_bios.Prelude.{◌≡◌, refl, true, false, some, [], ◌==◌, if◌then◌else◌}
use bemi_bios.VmxSetup.{
  Processor, Vmx, Answers, zero_vcpu, adjust_ctrl, vmcs_rows, replay, vcpu_create,
}
use bemi_bios.VmxSetup.Rows.{has_value}
use bemi_bios.VmxSetup.Vcpus.{Created, vcpu_create_lem, vcpu_create-not_written}

abbrev processor : Processor
processor = record {
  cpuid = λ leaf. record { eax = 0; ebx = 0; ecx = 0x20; edx = 0 };
  read_msr = λ msr. if msr == 0xC0000080 then 0x500 else 0xFFFFFFFF00000016;
  cr0 = 0x80000001;
  cr3 = 0x1000;
  gdt_base = 0x2000;
  idt_base = 0x3000;
}

abbrev machine : Vmx
machine = record {
  vcpus = λ i. zero_vcpu;
  cpu_count = 4;
  backend = false;
  cr4 = 0x2020;
  pages = [];
  vm_writes = [];
}

abbrev answers : Answers
answers = record {
  vmxon_region = some 0x10000;
  vmcs_region = some 0x11000;
  vmxon = 0;
  vmclear = 0;
  vmptrld = 0;
}

-- VMXON fails.
abbrev refusing : Answers
refusing = record answers { vmxon = 1 }

vcpu_create_lem_example :
    Created refusing machine 1 (vcpu_create processor refusing machine 1 0x8000 0x9000)
vcpu_create_lem_example = vcpu_create_lem processor refusing machine 1 0x8000 0x9000

rip_absent : has_value (vmcs_rows processor 0x2020 0x8000 0x9000) 0x681E ≡ false
unfolding vmcs_rows adjust_ctrl
rip_absent = refl

-- The guest's instruction pointer is not set.
vcpu_create-not_written_example :
    replay
      (λ field. true)
      (vcpu_create processor answers machine 1 0x8000 0x9000).1.vm_writes
      (λ field. 0)
      0x681E
    ≡ 0
vcpu_create-not_written_example =
    vcpu_create-not_written processor answers machine 1 0x8000 0x9000 (λ field. true) (λ field. 0)
      0x681E refl rip_absent
