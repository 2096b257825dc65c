-- ===== src/Driver.antt =====
-- The DXE driver bemibiospkg/bemibioscore/dxe/bemibioscore.c: the functions of its protocol and its
-- entry point, which put the other parts together. What it gets from the boot services (allocations,
-- the variable BEMI_NATIVE, the installation of the protocol) and from the backend of the hypervisor
-- is in the record `Services`.
pub mod Start
pub mod Hypervisor
mod Tests
use bemi_bios.Prelude.{
  ℕ, ◌+◌, ◌-◌, ◌*◌, ◌/◌, ◌%◌, ◌^◌, Bool, true, false, not, List, [], Option, none, some, leb, ◌==◌,
  if◌then◌else◌, Array,
}
use bemi_bios.Efi.{EfiStatus, success, invalid_parameter, out_of_resources, is_error}
use bemi_bios.Doubles.{Doubles}
use bemi_bios.VmxExit.{Registers}
use bemi_bios.CpuidSpoof.{Override, Source, spoof_init, spoof_handler}
use bemi_bios.SmmHandler.{Smm, smm_init}
use bemi_bios.TraceCache.{TraceEntry, TraceCache, init}
use bemi_bios.MemoryCompressor.{Compressor, dl_training, compressor_init, set_pattern}
use bemi_bios.Post.{detect_topology, calculate_thread_count}

abbrev pub boot_mode_legacy : ℕ
boot_mode_legacy = 1

abbrev pub boot_mode_max : ℕ
boot_mode_max = 2

-- gBootMode, gCpuCount, gBemiThreadCount, the variable BEMI_NATIVE, the table of CPUID answers, the
-- states of the SMM handler, the trace cache and the memory compressor, and the number of pages that
-- the test guest has allocated.
pub record Firmware (D : Type 0) : Type 0 where
  pub boot_mode : ℕ
  pub cpu_count : ℕ
  pub thread_count : ℕ
  pub variable : Option ℕ
  pub overrides : List Override
  pub smm : Smm
  pub cache : Option TraceCache
  pub compressor : Option (Compressor D)
  pub guest_pages : ℕ

-- The answers of the boot services, of the variable services (the status of GetVariable for a variable
-- that there is, and the one of SetVariable) and of the backend, and the two build constants.
pub record Services : Type 0 where
  pub backend_init_status : ℕ → EfiStatus
  pub vcpu_create_status : EfiStatus
  pub vcpu_run_status : EfiStatus
  pub trace_buffer : Option ℕ
  pub memory : Array TraceEntry
  pub compressor_pool : Bool
  pub code_page : Bool
  pub stack_page : Bool
  pub install_status : EfiStatus
  pub get_variable_status : EfiStatus
  pub set_variable_status : EfiStatus
  pub trace_cache_size : ℕ
  pub default_boot_mode : ℕ

module _ (d : Doubles) where
  -- SetVariable: the variable keeps its value when the service fails.
  abbrev pub set_variable : Services → Option ℕ → ℕ → Option ℕ
  set_variable sv variable mode = if is_error sv.set_variable_status then variable else some mode

  -- BemiSetBootMode, which does not look at the status of SetVariable.
  unfoldable pub set_boot_mode : Services → Firmware d.Double → ℕ → EfiStatus × Firmware d.Double
  set_boot_mode sv f mode =
      if leb boot_mode_max mode
      then (invalid_parameter, f)
      else (success, record f { boot_mode = mode; variable = set_variable sv f.variable mode })

  -- MemoryCompressorInit(2.2, 64.0) and the pattern for DL training.
  abbrev pub start_compressor : Bool → Option (Compressor d.Double)
  start_compressor true =
      some (set_pattern d (compressor_init d (d.hundredths 220) (d.of_nat 64)) dl_training)
  start_compressor false = none

  -- The end of BemiInitHypervisor, with the trace buffer; `none` as in TraceCacheInit.
  unfoldable pub start_parts :
      Services → Firmware d.Double → ℕ → Option (EfiStatus × Firmware d.Double)
  start_parts sv f buffer =
      let (status, smm) = smm_init f.smm buffer sv.trace_cache_size in
      if is_error status
      then some (status, record f { smm = smm })
      else elim (init sv.memory buffer sv.trace_cache_size) [
        | none ↦ none
        | some (_, cache) ↦ some (
          success,
          record f {
            smm = smm;
            cache = some cache;
            compressor = start_compressor sv.compressor_pool;
          },
        )
      ]

  -- BemiInitHypervisor
  unfoldable pub init_hypervisor :
      Services → Firmware d.Double → ℕ → Option (EfiStatus × Firmware d.Double)
  init_hypervisor sv f count =
      if is_error (sv.backend_init_status count)
      then some (sv.backend_init_status count, f)
      else elim sv.trace_buffer [
        | none ↦ some (out_of_resources, f)
        | some buffer ↦ start_parts sv f buffer
      ]

  -- VmxTestGuestLaunch, by the pages that it takes and gives back.
  unfoldable pub launch_test_guest : Services → Firmware d.Double → Firmware d.Double
  launch_test_guest sv f =
      let code = record f { guest_pages = f.guest_pages + 1 } in
      let both = record f { guest_pages = f.guest_pages + 2 } in
      if not sv.code_page
      then f
      else if not sv.stack_page
      then record code { guest_pages = code.guest_pages - 1 }
      else if is_error sv.vcpu_create_status
      then record both { guest_pages = both.guest_pages - 1 - 1 }
      else record both { guest_pages = both.guest_pages - 1 - 1 }

  -- BemiHandleCpuid for pointers that are not NULL.
  abbrev pub protocol_cpuid : Source → Firmware d.Double → ℕ → ℕ → Registers
  protocol_cpuid p f leaf subleaf = spoof_handler p f.overrides leaf subleaf

  -- What BemiBiosEntryPoint does in the legacy mode.
  unfoldable pub after_init :
      Services → Option (EfiStatus × Firmware d.Double) → Option (Firmware d.Double)
  after_init sv none = none
  after_init sv (some (status, f)) = some (if is_error status then f else launch_test_guest sv f)

  unfoldable pub enter_mode : Services → Firmware d.Double → Option (Firmware d.Double)
  enter_mode sv f =
      if f.boot_mode == boot_mode_legacy
      then after_init sv (init_hypervisor sv f f.cpu_count)
      else some f

  -- GetVariable: the value, or `none` for any error.
  abbrev pub get_variable : Services → Option ℕ → Option ℕ
  get_variable sv variable = if is_error sv.get_variable_status then none else variable

  -- The boot mode from the variable, or from the build constant, which is then stored.
  abbrev pub mode_of : Services → Option ℕ → ℕ
  mode_of sv none = sv.default_boot_mode
  mode_of sv (some mode) = mode

  abbrev pub variable_of : Services → Option ℕ → Option ℕ → Option ℕ
  variable_of sv variable none = set_variable sv variable sv.default_boot_mode
  variable_of sv variable (some mode) = variable

  -- BemiBiosEntryPoint up to the boot mode, on the table of CPUID answers that CpuidSpoofInit fills.
  abbrev pub prepare : Source → Services → Firmware d.Double → List Override → Firmware d.Double
  prepare p sv f table =
      let (count, caches) = detect_topology p in
      let found = get_variable sv f.variable in
      record f {
        cpu_count = count;
        thread_count = calculate_thread_count count caches;
        boot_mode = mode_of sv found;
        variable = variable_of sv f.variable found;
        overrides = table;
      }

  -- BemiBiosEntryPoint: the status of the installation, or `none` where a part does not come back or
  -- is not modelled further (CpuidSpoofInit, TraceCacheInit). The ACPI and SMBIOS tables are left out.
  unfoldable pub entry_point :
      Source → Services → Firmware d.Double → Option (EfiStatus × Firmware d.Double)
  entry_point p sv f = elim (spoof_init p) [
    | none ↦ none
    | some table ↦ elim (enter_mode sv (prepare p sv f table)) [
      | none ↦ none
      | some f' ↦ some (if is_error sv.install_status then sv.install_status else success, f')
    ]
  ]
