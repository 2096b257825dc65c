-- ===== src/Post/Support.antt =====
-- The support for virtualisation that POST reports, and the set-up of VMX.
use bemi_bios.Prelude.{ℕ, ◌≡◌, refl, true, arith}
use bemi_bios.Efi.{success}
use bemi_bios.ApicShadow.{bit_is_set}
use bemi_bios.VmxSetup.{Processor, Vmx, intel, detect_vendor, backend_init}
use bemi_bios.Post.{validate_vmx}

-- Where PostValidateVmxSupport reports support, and the processor is in protected mode with paging,
-- the vendor is found to be Intel and HypervisorBackendInit succeeds, fills in the backend and leaves
-- VMX enabled in CR4, whatever the state before it.
pub validate_vmx-backend_init :
    (p : Processor) (s : Vmx) (count : ℕ)
    → validate_vmx p.cpuid p.read_msr ≡ true
    → bit_is_set p.cr0 31 ≡ true
    → bit_is_set p.cr0 0 ≡ true
    → let (status, s') = backend_init p s count in
      (detect_vendor p.cpuid ≡ (success, intel))
      × (status ≡ success)
      × (s'.backend ≡ true)
      × (bit_is_set s'.cr4 13 ≡ true)
      × (s'.cpu_count ≡ count)
unfolding validate_vmx detect_vendor backend_init
validate_vmx-backend_init p s count supported paging protected =
    let vmx : bit_is_set (p.cpuid 1).ecx 5 ≡ true = ground arith in
    let locked : bit_is_set (p.read_msr 0x3A) 0 ≡ true = ground arith in
    let outside : bit_is_set (p.read_msr 0x3A) 2 ≡ true = ground arith in
    rw (detect_vendor, backend_init, vmx, locked, outside, paging, protected)
      (refl, refl, refl, ground arith, refl)
