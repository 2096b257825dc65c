-- ===== src/SmmHandler/Tests.antt =====
-- A series of interrupts at concrete times.
use bemi_bios.Prelude.{◌≡◌, ◌↔◌, ◌≤◌, refl, false, some, List, [], ◌∷◌, arith}
use bemi_bios.Efi.{success}
use bemi_bios.SmmHandler.{Smm, smm_latency_budget_us, smm_init, validate}
use bemi_bios.SmmHandler.Latency.{Smi, service_all, longest_us, over_budget, smm_init-service_all}

abbrev powered_on : Smm
powered_on = record {
  state = record {
    magic = 0;
    trace_cache_base = 0;
    trace_cache_size = 0;
    saved_trace_cache_entries = 0;
    bemi_active = false;
    save_timestamp = 0;
    restore_timestamp = 0;
  };
  stats = record {
    tsc_frequency = 0;
    max_latency_us = 0;
    total_smi_count = 0;
    budget_violations = 0;
    smrr_base = 0;
    smrr_mask = 0;
    smrr_configured = false;
  };
  active = false;
}

abbrev two_smis : List Smi
two_smis = record { enter = 1000; leave = 26000 } ∷ record { enter = 50000; leave = 350000 } ∷ []

longest_two : longest_us two_smis ≡ 120
unfolding longest_us
longest_two = refl

over_two : over_budget two_smis ≡ 1
unfolding over_budget
over_two = refl

smm_init-service_all_example :
    (s' : Smm) × (service_all (smm_init powered_on 0x80000000 0x1000000).1 two_smis ≡ some s')
    × (s'.stats.total_smi_count ≡ 2)
    × (s'.stats.max_latency_us ≡ longest_us two_smis)
    × (s'.stats.budget_violations ≡ over_budget two_smis)
    × ((validate s' ≡ success) ↔ (longest_us two_smis ≤ smm_latency_budget_us))
smm_init-service_all_example =
    smm_init-service_all powered_on 0x80000000 0x1000000 two_smis (omega arith)
