-- ===== src/Driver/Start.antt =====
-- What the driver's entry point leaves.
use bemi_bios.Prelude.{
  ℕ, ◌≤◌, ◌<◌, ◌≡◌, refl, sym, ap, ◌∙◌, subst, inl, inr, true, false, List, Option, none, some, leb,
  ◌==◌, if◌then◌else◌, arith, Bool-cases, Option-cases,
}
use bemi_bios.Efi.{EfiStatus, success, is_error}
use bemi_bios.Doubles.{Doubles}
use bemi_bios.CpuidSpoof.{Override, Source, spoof_init}
use bemi_bios.SmmHandler.{smm_init}
use bemi_bios.TraceCache.{init}
use bemi_bios.TraceCache.Inserts.{Leaves}
use bemi_bios.Post.{calculate_thread_count}
use bemi_bios.Driver.{
  Firmware, Services, boot_mode_max, boot_mode_legacy, set_variable, get_variable, variable_of,
  set_boot_mode, start_parts, init_hypervisor, launch_test_guest, after_init, enter_mode, mode_of,
  prepare, entry_point,
}

module _ (d : Doubles) where
  -- The same mode, variable, threads and pages.
  unfoldable Keeps : Firmware d.Double → Firmware d.Double → Type 0
  Keeps f f' =
      (f'.boot_mode ≡ f.boot_mode)
      × (f'.variable ≡ f.variable)
      × (f'.thread_count ≡ f.thread_count)
      × (f'.cpu_count ≡ f.cpu_count)
      × (f'.guest_pages ≡ f.guest_pages)

  Keeps-trans : (f f' f'' : Firmware d.Double) → Keeps f f' → Keeps f' f'' → Keeps f f''
  unfolding Keeps
  Keeps-trans f f' f'' (m, v, t, c, g) (m', v', t', c', g') =
      (m' ∙ m, v' ∙ v, t' ∙ t, c' ∙ c, g' ∙ g)

  start_parts-Keeps :
      (sv : Services) (f : Firmware d.Double) (buffer : ℕ)
      → Leaves (λ r. Keeps f r.1) (start_parts d sv f buffer)
  unfolding start_parts smm_init Leaves Keeps
  start_parts-Keeps sv f buffer = elim (Option-cases (init sv.memory buffer sv.trace_cache_size)) [
    | inl e ↦ rw e tt
    | inr (r, e) ↦ rw e (refl, refl, refl, refl, refl)
  ]

  init_hypervisor-Keeps :
      (sv : Services) (f : Firmware d.Double) (count : ℕ)
      → Leaves (λ r. Keeps f r.1) (init_hypervisor d sv f count)
  unfolding init_hypervisor Leaves Keeps
  init_hypervisor-Keeps sv f count = elim (Bool-cases (is_error (sv.backend_init_status count))) [
    | inl e ↦ rw (init_hypervisor, e) (refl, refl, refl, refl, refl)
    | inr e ↦ elim (Option-cases sv.trace_buffer) [
      | inl b ↦ rw (init_hypervisor, e, b) (refl, refl, refl, refl, refl)
      | inr (buffer, b) ↦ rw (init_hypervisor, e, b) (start_parts-Keeps sv f buffer)
    ]
  ]

  launch_test_guest-Keeps :
      (sv : Services) (f : Firmware d.Double) → Keeps f (launch_test_guest d sv f)
  unfolding launch_test_guest Keeps
  launch_test_guest-Keeps sv f =
      (ground arith, ground arith, ground arith, ground arith, ground arith)

  after_init-Keeps :
      (sv : Services) (f : Firmware d.Double) (r : Option (EfiStatus × Firmware d.Double))
      → Leaves (λ r. Keeps f r.1) r
      → Leaves (Keeps f) (after_init d sv r)
  unfolding after_init Leaves Keeps
  after_init-Keeps sv f none k = tt
  after_init-Keeps sv f (some (status, f')) k =
      let launched = launch_test_guest d sv f' in
      elim (Bool-cases (is_error status)) [
        | inl e ↦ subst (λ b. Keeps f (if b then f' else launched)) (sym e) k
        | inr e ↦
            subst (λ b. Keeps f (if b then f' else launched)) (sym e)
              (Keeps-trans f f' launched k (launch_test_guest-Keeps sv f'))
      ]

  enter_mode-Keeps : (sv : Services) (f : Firmware d.Double) → Leaves (Keeps f) (enter_mode d sv f)
  unfolding enter_mode Leaves Keeps
  enter_mode-Keeps sv f = elim (Bool-cases (f.boot_mode == boot_mode_legacy)) [
    | inl e ↦
        subst (λ b. Leaves (Keeps f) (if b then legacy else some f)) (sym e)
          (after_init-Keeps sv f started (init_hypervisor-Keeps sv f f.cpu_count))
    | inr e ↦
        subst (λ b. Leaves (Keeps f) (if b then legacy else some f)) (sym e)
          (refl, refl, refl, refl, refl)
  ]
    where
      started : Option (EfiStatus × Firmware d.Double)
      started = init_hypervisor d sv f f.cpu_count

      legacy : Option (Firmware d.Double)
      legacy = after_init d sv started

  -- The boot mode of a start: the variable's, where it can be read, or the one of the build.
  abbrev pub started_mode : Services → Option ℕ → ℕ
  started_mode sv variable =
      if is_error sv.get_variable_status
      then sv.default_boot_mode
      else elim variable [ none ↦ sv.default_boot_mode | some mode ↦ mode ]

  -- What the entry point should leave: the boot mode of the start, which the variable has too where
  -- SetVariable succeeds; a number of threads from 1 to 84; and no page more than before.
  abbrev pub Entered : Services → Firmware d.Double → Firmware d.Double → Type 0
  Entered sv f f' =
      (f'.boot_mode ≡ started_mode sv f.variable)
      × (is_error sv.set_variable_status ≡ false → f'.variable ≡ some f'.boot_mode)
      × (is_error sv.set_variable_status ≡ true → f'.variable ≡ f.variable)
      × (1 ≤ f'.thread_count)
      × (f'.thread_count ≤ 84)
      × (f'.guest_pages ≡ f.guest_pages)

  mode_lem :
      (sv : Services) (variable : Option ℕ)
      → let found = get_variable d sv variable in
        (mode_of d sv found ≡ started_mode sv variable)
        × (is_error sv.set_variable_status ≡ false
            → variable_of d sv variable found ≡ some (mode_of d sv found))
        × (is_error sv.set_variable_status ≡ true → variable_of d sv variable found ≡ variable)
  mode_lem sv variable = elim (Bool-cases (is_error sv.get_variable_status)) [
    | inl e ↦ rw e (refl, λ h. rw h refl, λ h. rw h refl)
    | inr e ↦ elim (Option-cases variable) [
      | inl v ↦ rw (e, v) (refl, λ h. rw h refl, λ h. rw h refl)
      | inr (mode, v) ↦ rw (e, v) (refl, λ h. refl, λ h. refl)
    ]
  ]

  prepare-Entered :
      (p : Source) (sv : Services) (f : Firmware d.Double) (table : List Override)
      → Entered sv f (prepare d p sv f table)
  unfolding calculate_thread_count
  prepare-Entered p sv f table =
      let (mode, stored, kept) = mode_lem sv f.variable in
      (mode, stored, kept, ground arith, ground arith, refl)

  Keeps-Entered :
      (sv : Services) (f g f' : Firmware d.Double) → Keeps g f' → Entered sv f g → Entered sv f f'
  unfolding Keeps
  Keeps-Entered sv f g f' (m, v, t, c, k) (m', stored, kept, lo, hi, k') = (
    m ∙ m',
    λ h. v ∙ stored h ∙ ap some (sym m),
    λ h. v ∙ kept h,
    omega (arith, t, lo),
    omega (arith, t, hi),
    k ∙ k',
  )

  installed : Services → Option (Firmware d.Double) → Option (EfiStatus × Firmware d.Double)
  installed sv r = elim r [
    | none ↦ none
    | some f' ↦ some (if is_error sv.install_status then sv.install_status else success, f')
  ]

  installed-Entered :
      (sv : Services) (f g : Firmware d.Double) (r : Option (Firmware d.Double))
      → Entered sv f g
      → Leaves (Keeps g) r
      → Leaves (λ r. Entered sv f r.1) (installed sv r)
  unfolding Leaves installed
  installed-Entered sv f g none e k = tt
  installed-Entered sv f g (some f') e k = Keeps-Entered sv f g f' k e

  pub entry_point-Entered :
      (p : Source) (sv : Services) (f : Firmware d.Double)
      → Leaves (λ r. Entered sv f r.1) (entry_point d p sv f)
  unfolding entry_point Leaves installed
  entry_point-Entered p sv f = elim (Option-cases (spoof_init p)) [
    | inl e ↦ rw (entry_point, e) tt
    | inr (table, e) ↦
        let g = prepare d p sv f table in
        rw (entry_point, e)
          (installed-Entered sv f g (enter_mode d sv g) (prepare-Entered p sv f table)
            (enter_mode-Keeps sv g))
  ]

  -- BemiSetBootMode accepts a known boot mode with EFI_SUCCESS also when SetVariable fails, and the mode
  -- is then in effect until the next start. If SetVariable succeeds, the entry point starts with that
  -- mode the next time, where it can read the variable and comes back; if it fails, the next start has
  -- the mode that it would have had before.
  pub entry_point-set_boot_mode :
      (p : Source) (sv next : Services) (f : Firmware d.Double) (mode : ℕ)
      → mode < boot_mode_max
      → let (status, g) = set_boot_mode d sv f mode in
        let again = entry_point d p next g in
        (status ≡ success)
        × (g.boot_mode ≡ mode)
        × (is_error sv.set_variable_status ≡ false
            → is_error next.get_variable_status ≡ false
            → Leaves (λ r. r.1.boot_mode ≡ mode) again)
        × (is_error sv.set_variable_status ≡ true
            → Leaves (λ r. r.1.boot_mode ≡ started_mode next f.variable) again)
  unfolding set_boot_mode Leaves
  entry_point-set_boot_mode p sv next f mode known =
      let small : leb boot_mode_max mode ≡ false = ground arith in
      let g : Firmware d.Double = record f {
        boot_mode = mode;
        variable = set_variable d sv f.variable mode;
      } in
      rw (set_boot_mode, small)
        (
          refl,
          refl,
          λ stored read.
              starts g mode (rw (stored, read) refl) (entry_point d p next g)
                (entry_point-Entered p next g),
          λ failed.
              starts g (started_mode next f.variable) (rw failed refl) (entry_point d p next g)
                (entry_point-Entered p next g),
        )
    where
      starts :
          (g : Firmware d.Double) (expected : ℕ)
          → started_mode next g.variable ≡ expected
          → (r : Option (EfiStatus × Firmware d.Double)) → Leaves (λ r. Entered next g r.1) r
          → Leaves (λ r. r.1.boot_mode ≡ expected) r
      starts g expected e none h = tt
      starts g expected e (some (status, f')) h = h.0 ∙ e
