-- ===== src/CpuidSpoof/Tests.antt =====
-- A processor with a few leaves.
use bemi_bios.Prelude.{ℕ, ◌<◌, ◌≡◌, refl, List, some, ◌==◌, if◌then◌else◌, arith}
use bemi_bios.ApicShadow.{set_bit}
use bemi_bios.VmxExit.{Registers}
use bemi_bios.CpuidSpoof.{Override, Source, signature, filled_table, spoof_init, spoof_handler}
use bemi_bios.CpuidSpoof.Answers.{spoof_handler-hypervisor}

abbrev answers : ℕ → Registers
answers leaf = record {
  eax = if leaf == 0 then 0x16 else if leaf == 0x80000000 then 0x80000008 else 0x21;
  ebx = 2;
  ecx = 0x8003;
  edx = 4;
}

abbrev source : Source
source = record { cpuid = answers; cpuid_ex = λ leaf subleaf. answers leaf }

abbrev table : List Override
table = filled_table source 0x16 0x80000008

table_is_filled : spoof_init source ≡ some table
unfolding spoof_init
table_is_filled = refl

spoof_handler-hypervisor_example :
    (spoof_handler source table 0x80000001 0
      ≡ record (answers 0x80000001) { ecx = set_bit 0x8003 2 })
    × (spoof_handler source table 0x40000000 0
        ≡ record { eax = 0x40000005; ebx = signature; ecx = signature; edx = signature })
    × ((subleaf : ℕ)
        → 0 < subleaf
        → (spoof_handler source table 0x80000001 subleaf ≡ source.cpuid_ex 0x80000001 subleaf)
          × (spoof_handler source table 0x40000000 subleaf ≡ source.cpuid_ex 0x40000000 subleaf))
spoof_handler-hypervisor_example =
    spoof_handler-hypervisor source table table_is_filled (omega arith)
