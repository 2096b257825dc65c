-- ===== src/SmmHandler.antt =====
-- The system management mode handler of hwcompat/smm/smmhandler.c. The time stamp that AsmReadTsc
-- returns is an argument of the operations that read it.
pub mod Latency
mod Tests
use bemi_bios.Prelude.{
  ℕ, zero, suc, ◌+◌, ◌-◌, ◌*◌, ◌/◌, ◌%◌, ◌^◌, Bool, true, false, ◌&&◌, ◌||◌, not, Option, none,
  some, ltb, ◌==◌, if◌then◌else◌, inc64, sub64, low32, bit_or,
}
use bemi_bios.Efi.{EfiStatus, success, invalid_parameter, timeout}

abbrev pub smm_latency_budget_us : ℕ
smm_latency_budget_us = 100

abbrev pub saved_state_magic : ℕ
saved_state_magic = 0x42454D49534D4D00

-- BEMI_SMM_STATE; the fields that no code reads or writes after the ZeroMem are left out.
pub record SmmState : Type 0 where
  pub magic : ℕ
  pub trace_cache_base : ℕ
  pub trace_cache_size : ℕ
  pub saved_trace_cache_entries : ℕ
  pub bemi_active : Bool
  pub save_timestamp : ℕ
  pub restore_timestamp : ℕ

pub record SmmStatistics : Type 0 where
  pub tsc_frequency : ℕ
  pub max_latency_us : ℕ
  pub total_smi_count : ℕ
  pub budget_violations : ℕ
  pub smrr_base : ℕ
  pub smrr_mask : ℕ
  pub smrr_configured : Bool

pub record Smm : Type 0 where
  pub state : SmmState
  pub stats : SmmStatistics
  pub active : Bool

-- ~(TraceCacheSize - 1) | 0x06, cut to 32 bits: -x is ~(x - 1) in 64 bits.
unfoldable pub smrr_mask_of : ℕ → ℕ
smrr_mask_of size = low32 (bit_or (sub64 0 size) 6)

-- SmmHandlerInit; gSmmActive keeps the value it has.
unfoldable pub smm_init : Smm → ℕ → ℕ → EfiStatus × Smm
smm_init s base size =
    let configured = not (base == 0) && not (size == 0) in
    (
      success,
      record s {
        state = record {
          magic = saved_state_magic;
          trace_cache_base = base;
          trace_cache_size = size;
          saved_trace_cache_entries = 0;
          bemi_active = true;
          save_timestamp = 0;
          restore_timestamp = 0;
        };
        stats = record {
          tsc_frequency = 2500000000;
          max_latency_us = 0;
          total_smi_count = 0;
          budget_violations = 0;
          smrr_base = if configured then low32 base else 0;
          smrr_mask = if configured then smrr_mask_of size else 0;
          smrr_configured = configured;
        };
      },
    )

-- SmmHandlerSaveState
unfoldable pub save_state : Smm → ℕ → EfiStatus × Smm
save_state s now =
    let entries =
      if s.state.trace_cache_base == 0 then s.state.saved_trace_cache_entries else 1024 in
    (
      success,
      record s {
        state = record s.state { save_timestamp = now; saved_trace_cache_entries = entries };
        stats = record s.stats { total_smi_count = inc64 s.stats.total_smi_count };
        active = true;
      },
    )

-- The ticks since the last save, in microseconds.
abbrev pub elapsed_us : Smm → ℕ → ℕ
elapsed_us s now = sub64 now s.state.save_timestamp / (s.stats.tsc_frequency / 1000000)

-- SmmHandlerRestoreState; none is the divide error of a clock below 1 MHz, such as before the
-- initialisation.
unfoldable pub restore_state : Smm → ℕ → Option (EfiStatus × Smm)
restore_state s now =
    let elapsed = elapsed_us s now in
    let longest = if ltb s.stats.max_latency_us elapsed then elapsed else s.stats.max_latency_us in
    let violations =
      if ltb smm_latency_budget_us elapsed
      then inc64 s.stats.budget_violations
      else s.stats.budget_violations in
    if s.stats.tsc_frequency / 1000000 == 0
    then none
    else some (
      success,
      record s {
        state = record s.state { restore_timestamp = now };
        stats = record s.stats { max_latency_us = longest; budget_violations = violations };
        active = false;
      },
    )

-- SmmHandlerRestoreTraceCache only prints.
abbrev pub restore_trace_cache : Smm → EfiStatus × Smm
restore_trace_cache s = (success, s)

-- SmmHandlerValidate
unfoldable pub validate : Smm → EfiStatus
validate s = if ltb 0 s.stats.budget_violations then timeout else success

-- SmmHandlerRegisterSmramRegion
abbrev pub register_smram_region : ℕ → ℕ → EfiStatus
register_smram_region base size = if base == 0 || size == 0 then invalid_parameter else success

-- SmmHandlerConfigureCpu
abbrev pub configure_cpu : ℕ → ℕ → EfiStatus
configure_cpu cpu base = if base == 0 then invalid_parameter else success

-- SmmHandlerGetStats
abbrev pub get_stats : Smm → ℕ × ℕ × ℕ
get_stats s = (s.stats.total_smi_count, s.stats.max_latency_us, s.stats.budget_violations)
