-- ===== src/SvmCore/Exits.antt =====
-- Exits of an SVM guest.
use bemi_bios.Prelude.{
  ℕ, ◌+◌, ◌*◌, ◌/◌, ◌%◌, ◌^◌, ◌≡◌, ◌⊎◌, inl, inr, refl, sym, ap, subst, ◌<◌, ==_iff, ◌∙◌, Bool,
  true, false, ◌&&◌, ◌||◌, not, List, [], ◌∷◌, ltb, leb, ◌==◌, if◌then◌else◌, add64, low32, arith,
  Bool-cases,
}
use bemi_bios.Efi.{EfiStatus, device_error}
use bemi_bios.ApicShadow.{Apic, bit_is_set, apic_base, write_reg, handle_mmio}
use bemi_bios.VmxExit.{Cpu, GuestState, ExitInfo, rax, rcx, rdx, msr_value, handle_msr}
use bemi_bios.SvmCore.{
  SvmGuest, VmRun, load_guest, svm_exit_info, fault_page, handle_npf, is_cr_exit, svm_dispatch,
  store_vmcb, store_guest, svm_exit_handler, Svm, run_loop, run_vcpu,
}

svm_dispatch-msr :
    (cpu : Cpu) (info : ExitInfo) (g : GuestState) (writes : List (ℕ × ℕ)) (apic : Apic)
    → info.reason ≡ 0x7C
    → svm_dispatch cpu info g writes apic ≡ record {
      guest = record g { rip = add64 g.rip info.instruction_length };
      msr_writes =
          let index = low32 (g.gprs rcx) in
          if index == 0x3A || index == 0x13C then writes else (index, msr_value g) ∷ writes;
      apic = apic;
    }
unfolding svm_dispatch handle_msr
svm_dispatch-msr cpu info g writes apic h = rw (svm_dispatch, handle_msr, h) refl

-- Every MSR exit of an SVM guest, of a RDMSR too, is executed as a WRMSR: the value of RDX and RAX is
-- written to the MSR that RCX names unless that is one of the two protected ones, and no general
-- register of the guest changes.
pub svm_exit_handler-msr :
    (cpu : Cpu) (v : SvmGuest)
    → v.vmcb 0x70 ≡ 0x7C
    → let v' = svm_exit_handler cpu v in
      let index = low32 (v.area rcx) in
      let value = low32 (v.area rax) + v.area rdx * 2 ^ 32 % 2 ^ 64 in
      (v'.msr_writes
        ≡ (if index == 0x3A || index == 0x13C then v.msr_writes else (index, value) ∷ v.msr_writes))
      × ((k : ℕ) → v'.area k ≡ v.area k)
unfolding svm_exit_handler store_guest load_guest svm_exit_info
svm_exit_handler-msr cpu v h =
    let info = svm_exit_info v in
    let done = svm_dispatch-msr cpu info (load_guest v) v.msr_writes v.apic h in
    (ap (λ d. d.msr_writes) done, λ k. ap (λ d. (store_guest v d).area k) done ∙ ground arith)

-- The exits that only move the guest on.
abbrev pub only_moves : ℕ → Bool
only_moves reason =
    not (reason == 0x72)
    && (not (reason == 0x7C) && (not (is_cr_exit reason) && not (reason == 0x400)))

svm_dispatch-moves :
    (cpu : Cpu) (info : ExitInfo) (g : GuestState) (writes : List (ℕ × ℕ)) (apic : Apic)
    → only_moves info.reason ≡ true
    → svm_dispatch cpu info g writes apic ≡ record {
      guest = record g {
        rip =
            add64 g.rip
              (if info.reason == 0x7B || info.reason == 0x78 then info.instruction_length else 1);
      };
      msr_writes = writes;
      apic = apic;
    }
unfolding svm_dispatch
svm_dispatch-moves cpu info g writes apic h = ground arith

-- An exit that is none of CPUID, MSR, control register access and nested page fault keeps the
-- registers, the stack pointer, the MSRs and the APIC. The guest goes on behind the instruction after
-- an I/O or HLT exit, and at the next byte after every other.
pub svm_exit_handler-keeps :
    (cpu : Cpu) (v : SvmGuest)
    → only_moves (v.vmcb 0x70) ≡ true
    → let v' = svm_exit_handler cpu v in
      ((k : ℕ) → v'.area k ≡ v.area k)
      × (v'.vmcb 0x148 ≡ v.vmcb 0x148)
      × (v'.msr_writes ≡ v.msr_writes)
      × (v'.apic ≡ v.apic)
      × (v'.vmcb 0x138
          ≡ add64 (v.vmcb 0x138) (
              if v.vmcb 0x70 == 0x7B || v.vmcb 0x70 == 0x78
              then (svm_exit_info v).instruction_length
              else 1))
unfolding svm_exit_handler store_guest store_vmcb load_guest svm_exit_info
svm_exit_handler-keeps cpu v h =
    let info = svm_exit_info v in
    let done = svm_dispatch-moves cpu info (load_guest v) v.msr_writes v.apic h in
    (
      λ k. ap (λ d. (store_guest v d).area k) done ∙ ground arith,
      ap (λ d. (store_guest v d).vmcb 0x148) done ∙ ground arith,
      ap (λ d. d.msr_writes) done,
      ap (λ d. d.apic) done,
      ap (λ d. (store_guest v d).vmcb 0x138) done ∙ ground arith,
    )

-- The address of a nested page fault is cut to its page, so that the only register of the APIC that
-- it reaches is the first.
page-mmio :
    (msb : ℕ → ℕ) (apic : Apic) (qualification value : ℕ) (is_write : Bool)
    → (handle_mmio msb apic (qualification / 4096 * 4096) is_write value).2 ≡ (
        if qualification / 4096 * 4096 == apic_base && is_write
        then write_reg msb apic 0 (low32 value)
        else apic)
unfolding handle_mmio
page-mmio msb apic qualification value is_write =
    let page = qualification / 4096 * 4096 in
    elim (Bool-cases (page == apic_base)) [
      | inl e ↦
          let at : page ≡ apic_base = (==_iff _ _).0 e in
          subst
            (λ x.
              (handle_mmio msb apic x is_write value).2
              ≡ (if x == apic_base && is_write then write_reg msb apic 0 (low32 value) else apic))
            (sym at) (elim (Bool-cases is_write) [ inl w ↦ rw w refl | inr w ↦ rw w refl ])
      | inr e ↦
          let outside : (ltb page apic_base || leb 0xFEE01000 page) ≡ true = ground arith in
          rw (handle_mmio, outside, e) refl
    ]

handle_npf_apic :
    (msb : ℕ → ℕ) (info : ExitInfo) (g : GuestState) (apic : Apic)
    → (handle_npf msb info g apic).1 ≡ (
        if info.qualification / 4096 * 4096 == apic_base && bit_is_set info.qualification 5
        then write_reg msb apic 0 (low32 (g.gprs rax))
        else apic)
unfolding handle_npf
handle_npf_apic msb info g apic =
    let page = fault_page info in
    let mmio =
      page-mmio msb apic info.qualification (g.gprs rax) (bit_is_set info.qualification 5) in
    elim (Bool-cases (leb 0xFEC00000 page && ltb page 0xFF000000)) [
      | inl e ↦ rw (handle_npf, e) mmio
      | inr e ↦
          let elsewhere : (page == apic_base) ≡ false = ground arith in
          rw (handle_npf, e, elsewhere) refl
    ]

-- A nested page fault reaches one register of the APIC only, its first: whatever the fault is, the
-- APIC stays as it is, unless the fault is a write in its page; that writes the low half of RAX to the
-- register at offset 0.
pub svm_exit_handler-npf :
    (cpu : Cpu) (v : SvmGuest)
    → v.vmcb 0x70 ≡ 0x400
    → (svm_exit_handler cpu v).apic ≡ (
        if v.vmcb 0x78 / 4096 * 4096 == apic_base && bit_is_set (v.vmcb 0x78) 5
        then write_reg cpu.msb v.apic 0 (low32 (v.area rax))
        else v.apic)
unfolding svm_exit_handler svm_dispatch store_guest load_guest svm_exit_info
svm_exit_handler-npf cpu v h =
    let info = svm_exit_info v in
    let g = load_guest v in
    let taken : (svm_dispatch cpu info g v.msr_writes v.apic).apic
        ≡ (handle_npf cpu.msb info g v.apic).1 =
      rw (svm_dispatch, h) refl in
    taken ∙ handle_npf_apic cpu.msb info g v.apic

-- All results are compared with 0.
abbrev pub any_fails : List VmRun → Bool
any_fails [] = false
any_fails (r ∷ rs) = not (r.result == 0) || any_fails rs

abbrev pub RunOutcome : Bool → (EfiStatus × SvmGuest) ⊎ SvmGuest → Type 0
RunOutcome fails (inl (status, v)) = (fails ≡ true) × (status ≡ device_error)
RunOutcome fails (inr v) = fails ≡ false

run_loop-RunOutcome :
    (cpu : Cpu) (v : SvmGuest) (rs : List VmRun) → RunOutcome (any_fails rs) (run_loop cpu v rs)
unfolding run_loop
run_loop-RunOutcome cpu v [] = refl
run_loop-RunOutcome cpu v (r ∷ rs) = elim (Bool-cases (r.result == 0)) [
  | inl e ↦ rw e (run_loop-RunOutcome cpu (svm_exit_handler cpu (record v { vmcb = r.vmcb })) rs)
  | inr e ↦ rw e (refl, refl)
]

-- SvmRunVcpu never succeeds: for an active processor below the processor count it returns a device
-- error if one of the runs of the guest fails, and otherwise does not return.
pub run_vcpu-RunOutcome :
    (cpu : Cpu) (s : Svm) (apic : Apic) (id : ℕ) (rs : List VmRun)
    → id < s.cpu_count
    → (s.vcpus id).active ≡ true
    → RunOutcome (any_fails rs) (run_vcpu cpu s apic id rs)
unfolding run_vcpu
run_vcpu-RunOutcome cpu s apic id rs below active =
    let there : leb s.cpu_count id ≡ false = ground arith in
    rw (run_vcpu, there, active) (run_loop-RunOutcome cpu _ rs)
