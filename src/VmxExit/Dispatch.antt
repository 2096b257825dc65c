-- ===== src/VmxExit/Dispatch.antt =====
-- The exit handler as a whole: what it keeps of the guest.
use bemi_bios.Prelude.{
  ℕ, ◌≡◌, inl, inr, refl, ap, ◌∙◌, Bool, true, false, ◌||◌, Option, none, some, List, [], ◌∷◌, ◌==◌,
  if◌then◌else◌, add64, arith, Bool-cases, Option-cases,
}
use bemi_bios.ApicShadow.{bit_is_set, get_pending}
use bemi_bios.VmxExit.{
  Cpu, GuestState, ExitInfo, Vcpu, vmx_guest_rsp, vmx_guest_rip, vm_entry_intr_info, advance,
  load_state, resumes, dispatch, write_guest_state, store_state, deliver_pending, exit_info,
  exit_handler,
}

-- The value of the last call for a field in a log.
abbrev pub last_write : List (ℕ × ℕ) → ℕ → Option ℕ
last_write [] field = none
last_write ((f, value) ∷ writes) field = if f == field then some value else last_write writes field

-- The end of the handler touches the APIC and calls for the field of the event only.
deliver_pending-keeps :
    (cpu : Cpu) (g : GuestState) (v : Vcpu)
    → let v' = deliver_pending cpu g v in
      (v'.save_area ≡ v.save_area)
      × (v'.msr_writes ≡ v.msr_writes)
      × ((field : ℕ)
          → (vm_entry_intr_info == field) ≡ false
          → last_write v'.vm_writes field ≡ last_write v.vm_writes field)
unfolding deliver_pending
deliver_pending-keeps cpu g v = elim (Option-cases (get_pending cpu.msb v.apic true).0) [
  | inl e ↦ rw (deliver_pending, e) (refl, refl, λ field ne. refl)
  | inr (vector, e) ↦ elim (Bool-cases (bit_is_set g.rflags 9)) [
    | inl i ↦ rw (deliver_pending, e, i) (refl, refl, λ field ne. rw ne refl)
    | inr i ↦ rw (deliver_pending, e, i) (refl, refl, λ field ne. refl)
  ]
]

-- The reasons whose handlers change a general register or an MSR.
abbrev pub emulates : ℕ → Bool
emulates reason = reason == 0x0A || (reason == 0x1F || (reason == 0x20 || reason == 0x1C))

dispatch-plain :
    (cpu : Cpu) (info : ExitInfo) (g : GuestState) (writes : List (ℕ × ℕ))
    → emulates info.reason ≡ false
    → dispatch cpu info g writes ≡ ((if resumes info.reason then g else advance info g), writes)
unfolding dispatch
dispatch-plain cpu info g writes plain = ground arith

store-load :
    (v : Vcpu) (writes : List (ℕ × ℕ)) (g : GuestState)
    → g.gprs ≡ (load_state v).gprs
    → let v' = store_state v g writes in
      ((k : ℕ) → v'.save_area k ≡ v.save_area k)
      × (last_write v'.vm_writes vmx_guest_rsp ≡ some (v.vm_read vmx_guest_rsp))
      × (last_write v'.vm_writes vmx_guest_rip ≡ some g.rip)
unfolding store_state load_state write_guest_state
store-load v writes g e = (λ k. rw e (ground arith), rw e refl, refl)

-- An exit that is neither CPUID nor an MSR nor a control register access leaves the whole save area
-- and the log of MSR writes as they were. The last call of BemiVmWrite for the stack pointer has what
-- BemiVmRead has returned for it; the last one for the instruction pointer has the address behind the
-- instruction, also for an EPT violation, or the same address if the reason is an interrupt, its
-- window or the preemption timer. Nothing is said of what the calls do to the VMCS.
pub exit_handler-keeps :
    (cpu : Cpu) (v : Vcpu)
    → emulates (exit_info v).reason ≡ false
    → let v' = exit_handler cpu v in
      ((k : ℕ) → v'.save_area k ≡ v.save_area k)
      × (last_write v'.vm_writes vmx_guest_rsp ≡ some (v.vm_read vmx_guest_rsp))
      × (v'.msr_writes ≡ v.msr_writes)
      × (last_write v'.vm_writes vmx_guest_rip
          ≡ some (
              if resumes (exit_info v).reason
              then v.vm_read vmx_guest_rip
              else add64 (v.vm_read vmx_guest_rip) (exit_info v).instruction_length))
unfolding exit_handler load_state store_state
exit_handler-keeps cpu v plain =
    let info = exit_info v in
    let g = load_state v in
    let after : GuestState = if resumes info.reason then g else advance info g in
    let stored = store_state v after v.msr_writes in
    let (area, log, fields) = deliver_pending-keeps cpu after stored in
    let gprs : after.gprs ≡ g.gprs = ground arith in
    let (areas, stack, next) = store-load v v.msr_writes after gprs in
    let whole : exit_handler cpu v ≡ deliver_pending cpu after stored =
      rw (exit_handler, dispatch-plain cpu info g v.msr_writes plain) refl in
    let target : after.rip
        ≡ (if resumes info.reason then g.rip else add64 g.rip info.instruction_length) =
      ground arith in
    rw whole (
      λ k. ap (λ x. x k) area ∙ areas k,
      fields vmx_guest_rsp refl ∙ stack,
      log,
      fields vmx_guest_rip refl ∙ next ∙ ap some target,
    )
