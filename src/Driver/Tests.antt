-- ===== src/Driver/Tests.antt =====
-- A boot of the firmware in the legacy mode.
use bemi_bios.Prelude.{
  ℕ, ◌+◌, ◌-◌, ◌*◌, ◌/◌, ◌≡◌, refl, true, false, [], none, some, leb, ltb, Array, arith,
}
use bemi_bios.Efi.{success, is_error}
use bemi_bios.Doubles.{Doubles}
use bemi_bios.VmxExit.{Registers}
use bemi_bios.CpuidSpoof.{Source}
use bemi_bios.SmmHandler.{Smm}
use bemi_bios.TraceCache.{TraceEntry, fresh}
use bemi_bios.TraceCache.Valid.{IsValid}
use bemi_bios.TraceCache.Inserts.{Leaves}
use bemi_bios.Driver.{Firmware, Services, set_boot_mode, init_hypervisor, entry_point}
use bemi_bios.Driver.Start.{started_mode, entry_point-set_boot_mode}
use bemi_bios.Driver.Hypervisor.{init_hypervisor_lem}

abbrev doubles : Doubles
doubles = record {
  Double = ℕ;
  of_nat = λ n. n * 100;
  hundredths = λ n. n;
  add = λ a b. a + b;
  sub = λ a b. a - b;
  mul = λ a b. a * b / 100;
  div = λ a b. a * 100 / b;
  less = ltb;
  at_most = leb;
  truncate = λ a. a / 100;
}

abbrev memory : Array TraceEntry
memory k = record {
  rip = 0;
  context = 0;
  translated_addr = 0;
  micro_op_count = 0;
  instruction_count = 0;
  execution_count = 0;
  pin_count = 0;
  dbo_hint = 0;
  lru_counter = 0;
  valid = false;
  next = none;
}

abbrev services : Services
services = record {
  backend_init_status = λ count. success;
  vcpu_create_status = success;
  vcpu_run_status = success;
  trace_buffer = some 0x1000000;
  memory = memory;
  compressor_pool = true;
  code_page = true;
  stack_page = true;
  install_status = success;
  get_variable_status = success;
  set_variable_status = success;
  trace_cache_size = 0x400000;
  default_boot_mode = 0;
}

abbrev smm : Smm
smm = record {
  state = record {
    magic = 0;
    trace_cache_base = 0;
    trace_cache_size = 0;
    saved_trace_cache_entries = 0;
    bemi_active = false;
    save_timestamp = 0;
    restore_timestamp = 0;
  };
  stats = record {
    tsc_frequency = 0;
    max_latency_us = 0;
    total_smi_count = 0;
    budget_violations = 0;
    smrr_base = 0;
    smrr_mask = 0;
    smrr_configured = false;
  };
  active = false;
}

abbrev firmware : Firmware ℕ
firmware = record {
  boot_mode = 0;
  cpu_count = 0;
  thread_count = 144;
  variable = none;
  overrides = [];
  smm = smm;
  cache = none;
  compressor = none;
  guest_pages = 0;
}

abbrev answers : ℕ → Registers
answers leaf = record { eax = 0xA; ebx = 0x80000; ecx = 0x20; edx = 0 }

abbrev source : Source
source = record { cpuid = answers; cpuid_ex = λ leaf subleaf. answers leaf }

entry_point-set_boot_mode_example :
    let (status, g) = set_boot_mode doubles services firmware 1 in
    let again = entry_point doubles source services g in
    (status ≡ success)
    × (g.boot_mode ≡ 1)
    × (is_error services.set_variable_status ≡ false
        → is_error services.get_variable_status ≡ false
        → Leaves (λ r. r.1.boot_mode ≡ 1) again)
    × (is_error services.set_variable_status ≡ true
        → Leaves (λ r. r.1.boot_mode ≡ started_mode doubles services firmware.variable) again)
entry_point-set_boot_mode_example =
    entry_point-set_boot_mode doubles source services services firmware 1 (omega arith)

init_hypervisor_lem_example :
    let cache = fresh memory 0x400000 in
    (f' : Firmware ℕ) × (init_hypervisor doubles services firmware 8 ≡ some (success, f'))
    × (f'.cache ≡ some cache)
    × IsValid cache
    × (f'.smm.state.trace_cache_base ≡ 0x1000000)
    × (f'.smm.state.trace_cache_size ≡ 0x400000)
    × (f'.smm.state.bemi_active ≡ true)
    × (f'.boot_mode ≡ 0)
    × (f'.overrides ≡ [])
init_hypervisor_lem_example =
    init_hypervisor_lem doubles services firmware 8 0x1000000 refl refl (λ e. omega arith)
      (omega arith)
