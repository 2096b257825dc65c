-- ===== src/VmxExit/Tests.antt =====
-- Exits of a concrete guest.
use bemi_bios.Prelude.{ℕ, ◌+◌, ◌≡◌, refl, some, [], ◌==◌, if◌then◌else◌, Array, add64}
use bemi_bios.ApicShadow.{apic_init, inject}
use bemi_bios.ApicShadow.LeadingZeros.{leading_zeros}
use bemi_bios.VmxExit.{
  Cpu, GuestState, ExitInfo, Vcpu, vmx_guest_rsp, vmx_guest_rip, vmx_guest_rflags, rbx,
  handle_cr_access, resumes, exit_info, exit_handler,
}
use bemi_bios.VmxExit.Dispatch.{last_write, exit_handler-keeps}

abbrev cpu : Cpu
cpu = record {
  cpuid = λ leaf subleaf. record { eax = leaf + 7; ebx = 2; ecx = 0x80000021; edx = 4 };
  read_msr = λ index. 0x100000002;
  msb = leading_zeros;
}

abbrev guest : GuestState
guest = record {
  gprs = λ k. if k == 0 then 1 else if k == 2 then 0x10 else k;
  rip = 0x1000;
  rflags = 2;
  cr0 = 0x80000001;
  cr3 = 0x2000;
  cr4 = 0x20;
  efer = 0x500;
}

-- A halted guest, with interrupts disabled.
abbrev halted : Array ℕ
halted field =
    if field == 0x4402
    then 0x0C
    else if field == 0x440C
    then 1
    else if field == vmx_guest_rip
    then 0x1000
    else if field == vmx_guest_rflags
    then 2
    else 0

abbrev vcpu : Vcpu
vcpu = record {
  save_area = λ k. k + 1;
  vm_read = halted;
  vm_writes = [];
  msr_writes = [];
  apic = (inject (apic_init 0) 0x31).1;
}

abbrev exit_of : ℕ → ℕ → ExitInfo
exit_of reason qualification = record {
  reason = reason;
  qualification = qualification;
  instruction_length = 2;
}

-- Register number 1 is RCX in the qualification of an exit, but the second register of GUEST_STATE is
-- RBX: a MOV of RCX (here 0x10) to CR3 stores RBX (here 1).
mov_to_cr3_reads_rbx : (handle_cr_access (exit_of 0x1C 0x103) guest).cr3 ≡ guest.gprs rbx
unfolding handle_cr_access
mov_to_cr3_reads_rbx = refl

exit_handler-keeps_example :
    let v' = exit_handler cpu vcpu in
    ((k : ℕ) → v'.save_area k ≡ vcpu.save_area k)
    × (last_write v'.vm_writes vmx_guest_rsp ≡ some (vcpu.vm_read vmx_guest_rsp))
    × (v'.msr_writes ≡ vcpu.msr_writes)
    × (last_write v'.vm_writes vmx_guest_rip
        ≡ some (
            if resumes (exit_info vcpu).reason
            then vcpu.vm_read vmx_guest_rip
            else add64 (vcpu.vm_read vmx_guest_rip) (exit_info vcpu).instruction_length))
exit_handler-keeps_example = exit_handler-keeps cpu vcpu refl
