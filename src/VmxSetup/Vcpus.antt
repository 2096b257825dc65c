-- ===== src/VmxSetup/Vcpus.antt =====
-- VmxVcpuCreate: when it succeeds, what it leaves allocated, and what reaches the VMCS.
use bemi_bios.Prelude.{
  ℕ, ◌<◌, ◌≡◌, ◌≢◌, inl, inr, refl, Bool, true, false, ◌&&◌, not, Option, none, some, List, [], ◌∷◌,
  leb, ltb, ◌==◌, if◌then◌else◌, Array, arith, Bool-cases, Option-cases, ◌∙◌, ap,
}
use bemi_bios.Efi.{EfiStatus, success, invalid_parameter, out_of_resources, device_error}
use bemi_bios.VmxSetup.{
  Processor, Vmx, Answers, max_logical_processors, vmcs_rows, write_rows, replay, setup_vmcs,
  enter_vmx, vcpu_create,
}
use bemi_bios.VmxSetup.Rows.{has_value, replay-other}

abbrev pub is_some : Option ℕ → Bool
is_some none = false
is_some (some x) = true

-- Whether a call of VmxVcpuCreate gets its two pages, and whether the instructions then succeed.
abbrev pub gets_pages : Answers → ℕ → Bool
gets_pages a id = ltb id max_logical_processors && (is_some a.vmxon_region && is_some a.vmcs_region)

abbrev pub enters : Answers → Bool
enters a = a.vmxon == 0 && (a.vmclear == 0 && a.vmptrld == 0)

-- The status of a call, from the answers to it.
abbrev pub create_status : Answers → ℕ → EfiStatus
create_status a id =
    if leb max_logical_processors id
    then invalid_parameter
    else if not (gets_pages a id)
    then out_of_resources
    else if enters a
    then success
    else device_error

-- What a call should have done to the state. Without two pages it leaves the whole state; with them it
-- keeps both and stores them in the state of its own processor, which is active just when the three
-- instructions succeed.
abbrev pub Created : Answers → Vmx → ℕ → EfiStatus × Vmx → Type 0
Created a s id (status, s') =
    (status ≡ create_status a id)
    × (gets_pages a id ≡ false → s' ≡ s)
    × ((x y : ℕ)
        → id < max_logical_processors
        → a.vmxon_region ≡ some x
        → a.vmcs_region ≡ some y
        → (s'.pages ≡ y ∷ x ∷ s.pages)
          × (s'.vcpus id ≡ record { vmcs_page = y; vmxon_page = x; active = enters a }))
    × ((i : ℕ) → i ≢ id → s'.vcpus i ≡ s.vcpus i)

module _ (p : Processor) (a : Answers) (s : Vmx) (id entry_point stack_pointer : ℕ) where
  abbrev entered : ℕ → ℕ → EfiStatus × Vmx
  entered vmxon_page vmcs_page = enter_vmx p a s id entry_point stack_pointer vmxon_page vmcs_page

  enter_vmx_status :
      (vmxon_page vmcs_page : ℕ)
      → (entered vmxon_page vmcs_page).0 ≡ (if enters a then success else device_error)
  unfolding enter_vmx
  enter_vmx_status vmxon_page vmcs_page = ground arith

  enter_vmx_pages :
      (vmxon_page vmcs_page : ℕ)
      → (entered vmxon_page vmcs_page).1.pages ≡ vmcs_page ∷ vmxon_page ∷ s.pages
  unfolding enter_vmx setup_vmcs
  enter_vmx_pages vmxon_page vmcs_page = ground arith

  enter_vmx_own :
      (vmxon_page vmcs_page : ℕ)
      → (entered vmxon_page vmcs_page).1.vcpus id
        ≡ record { vmcs_page = vmcs_page; vmxon_page = vmxon_page; active = enters a }
  unfolding enter_vmx setup_vmcs
  enter_vmx_own vmxon_page vmcs_page = elim (Bool-cases (enters a)) [
    | inl e ↦ rw e (ground arith)
    | inr e ↦ rw e (ground arith)
  ]

  enter_vmx_others :
      (vmxon_page vmcs_page i : ℕ) → i ≢ id → (entered vmxon_page vmcs_page).1.vcpus i ≡ s.vcpus i
  unfolding enter_vmx setup_vmcs
  enter_vmx_others vmxon_page vmcs_page i ne = ground arith

  -- VmxVcpuCreate returns the status that the answers give. For a processor number of 256 or more, or
  -- when one of the two allocations fails, it leaves the whole state as it was. Otherwise it has
  -- allocated the two pages, and keeps them also when it then fails; the state of the processor has
  -- both, and is active just when the call succeeds. No other processor's state changes.
  pub vcpu_create_lem : Created a s id (vcpu_create p a s id entry_point stack_pointer)
  unfolding vcpu_create
  vcpu_create_lem = elim (Bool-cases (leb max_logical_processors id)) [
    | inl e ↦
        let small : ltb id max_logical_processors ≡ false = ground arith in
        rw (vcpu_create, e, small)
          (refl, λ h. refl, λ x y lt f g. absurd (ground arith), λ i ne. refl)
    | inr e ↦
        let small : ltb id max_logical_processors ≡ true = ground arith in
        elim (Option-cases a.vmxon_region) [
          | inl f ↦
              rw (vcpu_create, e, small, f)
                (refl, λ h. refl, λ x y lt f' g. absurd (ground arith), λ i ne. refl)
          | inr (x, f) ↦ elim (Option-cases a.vmcs_region) [
            | inl g ↦
                rw (vcpu_create, e, small, f, g)
                  (refl, λ h. refl, λ x' y lt f' g'. absurd (ground arith), λ i ne. refl)
            | inr (y, g) ↦
                rw (vcpu_create, e, small, f, g)
                  (
                    enter_vmx_status x y,
                    λ h. absurd (ground arith),
                    λ x' y' lt f' g'. with_pages x y x' y' f' g',
                    enter_vmx_others x y,
                  )
          ]
        ]
  ]
    where
      with_pages :
          (x y x' y' : ℕ)
          → some x ≡ some x'
          → some y ≡ some y'
          → ((entered x y).1.pages ≡ y' ∷ x' ∷ s.pages)
            × ((entered x y).1.vcpus id
                ≡ record { vmcs_page = y'; vmxon_page = x'; active = enters a })
      with_pages x y x' y' f g =
          let ex : x ≡ x' = ground (arith, f) in
          let ey : y ≡ y' = ground (arith, g) in
          (
            enter_vmx_pages x y ∙ ap (λ l. y ∷ l ∷ s.pages) ex ∙ ap (λ l. l ∷ x' ∷ s.pages) ey,
            enter_vmx_own x y
                ∙ ap (λ l. record { vmcs_page = y; vmxon_page = l; active = enters a }) ex
                ∙ ap (λ l. record { vmcs_page = l; vmxon_page = x'; active = enters a }) ey,
          )

  abbrev rows : List (ℕ × ℕ)
  rows = vmcs_rows p s.cr4 entry_point stack_pointer

  enter_vmx_writes :
      (vmxon_page vmcs_page : ℕ)
      → (entered vmxon_page vmcs_page).1.vm_writes
        ≡ (if enters a then write_rows rows [] else s.vm_writes)
  unfolding enter_vmx setup_vmcs
  enter_vmx_writes vmxon_page vmcs_page = ground arith

  vcpu_create_writes :
      create_status a id ≡ success
      → (vcpu_create p a s id entry_point stack_pointer).1.vm_writes ≡ write_rows rows []
  unfolding vcpu_create
  vcpu_create_writes ok = elim (Bool-cases (leb max_logical_processors id)) [
    | inl e ↦ absurd (ground arith)
    | inr e ↦ elim (Option-cases a.vmxon_region) [
      | inl f ↦ absurd (ground arith)
      | inr (x, f) ↦ elim (Option-cases a.vmcs_region) [
        | inl g ↦ absurd (ground arith)
        | inr (y, g) ↦
            let enters_now : enters a ≡ true = ground arith in
            rw (vcpu_create, e, f, g)
              (enter_vmx_writes x y
                ∙ ap (λ b. if b then write_rows rows [] else s.vm_writes) enters_now)
      ]
    ]
  ]

  -- A successful VmxVcpuCreate does not set up the guest with the BemiVmWrite of the repository, which
  -- takes its two operands the wrong way round: a field of the current VMCS, such as the guest's
  -- instruction pointer, still has what VMPTRLD found there, if its encoding is not by chance one of the
  -- values that VmxSetupVmcs writes.
  pub vcpu_create-not_written :
      (has_field : ℕ → Bool) (vmcs : Array ℕ) (field : ℕ)
      → create_status a id ≡ success
      → has_value (vmcs_rows p s.cr4 entry_point stack_pointer) field ≡ false
      → replay has_field (vcpu_create p a s id entry_point stack_pointer).1.vm_writes vmcs field
        ≡ vmcs field
  unfolding replay
  vcpu_create-not_written has_field vmcs field ok absent =
      ap (λ w. replay has_field w vmcs field) (vcpu_create_writes ok)
      ∙ replay-other has_field rows [] vmcs field absent
