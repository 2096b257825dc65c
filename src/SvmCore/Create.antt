-- ===== src/SvmCore/Create.antt =====
-- Creation of an SVM guest.
use bemi_bios.Prelude.{ℕ, ◌≤◌, ◌<◌, ◌≡◌, ◌↔◌, none, some, arith}
use bemi_bios.SvmCore.{SvmProcessor, Svm, fill_vcpu, create_vcpu, max_vcpus}

-- With its two pages, SvmCreateVcpu writes beyond its array just for the processor numbers that are
-- at least 256 and below the processor count that SvmInit was given.
pub create_vcpu-out_of_bounds :
    (p : SvmProcessor) (s : Svm) (vmcb hsave id entry_point stack_pointer : ℕ)
    → (create_vcpu p s (some vmcb) (some hsave) id entry_point stack_pointer ≡ none)
      ↔ ((max_vcpus ≤ id) × (id < s.cpu_count))
unfolding create_vcpu fill_vcpu
create_vcpu-out_of_bounds p s vmcb hsave id entry_point stack_pointer =
    (λ h. ground arith, λ h. ground arith)
