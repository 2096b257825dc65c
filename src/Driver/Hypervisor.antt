-- ===== src/Driver/Hypervisor.antt =====
-- BemiInitHypervisor puts the SMM handler, the trace cache and the memory compressor to work.
use bemi_bios.Prelude.{ℕ, ◌+◌, ◌≤◌, ◌≡◌, ◌≢◌, refl, true, false, some, ltb, leb, ◌==◌, arith}
use bemi_bios.Efi.{success}
use bemi_bios.Doubles.{Doubles}
use bemi_bios.SmmHandler.{smm_init}
use bemi_bios.TraceCache.{bucket_bytes, header_bytes, fresh, start, init}
use bemi_bios.TraceCache.Chains.{Below, Descends}
use bemi_bios.TraceCache.Valid.{IsValid}
use bemi_bios.Driver.{Firmware, Services, start_compressor, start_parts, init_hypervisor}

init-fresh :
    (sv : Services) (buffer : ℕ)
    → buffer ≢ 0
    → bucket_bytes + header_bytes ≤ sv.trace_cache_size
    → init sv.memory buffer sv.trace_cache_size
      ≡ some (success, fresh sv.memory sv.trace_cache_size)
unfolding init start
init-fresh sv buffer given large =
    let there : (buffer == 0) ≡ false = ground arith in
    let region : ltb sv.trace_cache_size 4096 ≡ false = ground arith in
    let above : leb sv.trace_cache_size (bucket_bytes + 40) ≡ false = ground arith in
    let whole : ltb sv.trace_cache_size (bucket_bytes + header_bytes) ≡ false = ground arith in
    rw (init, there, region, start, above, whole) refl

fresh-IsValid :
    (sv : Services)
    → bucket_bytes + header_bytes ≤ sv.trace_cache_size
    → IsValid (fresh sv.memory sv.trace_cache_size)
unfolding IsValid Descends Below
fresh-IsValid sv large = (λ on. omega arith, λ k lt. absurd (omega arith), λ b. tt)

-- When the backend starts, a buffer that is not at address 0 and is large enough for the header and
-- the bucket table of a trace cache makes BemiInitHypervisor succeed: it leaves a trace cache that is
-- initialised, empty and valid in the whole buffer, and an SMM handler that is active for the same
-- base and size, and it changes neither the boot mode nor the table of CPUID answers.
pub init_hypervisor_lem :
    (d : Doubles) (sv : Services) (f : Firmware d.Double) (count buffer : ℕ)
    → sv.backend_init_status count ≡ success
    → sv.trace_buffer ≡ some buffer
    → buffer ≢ 0
    → bucket_bytes + header_bytes ≤ sv.trace_cache_size
    → let cache = fresh sv.memory sv.trace_cache_size in
      (f' : Firmware d.Double) × (init_hypervisor d sv f count ≡ some (success, f'))
      × (f'.cache ≡ some cache)
      × IsValid cache
      × (f'.smm.state.trace_cache_base ≡ buffer)
      × (f'.smm.state.trace_cache_size ≡ sv.trace_cache_size)
      × (f'.smm.state.bemi_active ≡ true)
      × (f'.boot_mode ≡ f.boot_mode)
      × (f'.overrides ≡ f.overrides)
unfolding init_hypervisor start_parts smm_init
init_hypervisor_lem d sv f count buffer backend given there large =
    let cache = fresh sv.memory sv.trace_cache_size in
    let f' : Firmware d.Double = record f {
      smm = (smm_init f.smm buffer sv.trace_cache_size).1;
      cache = some cache;
      compressor = start_compressor d sv.compressor_pool;
    } in
    (
      f',
      rw (init_hypervisor, backend, given, init-fresh sv buffer there large) refl,
      refl,
      fresh-IsValid sv large,
      refl,
      refl,
      refl,
      refl,
      refl,
    )
