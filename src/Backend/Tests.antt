-- ===== src/Backend/Tests.antt =====
-- Exits of a concrete guest.
use bemi_bios.Prelude.{ℕ, ◌≡◌, inl, inr, refl}
use bemi_bios.VmxExit.{GuestState, ExitInfo, handle_cr_access}
use bemi_bios.Backend.{Ports, handle_cr}
use bemi_bios.Backend.Exits.{handle_cr-handle_cr_access}

abbrev guest : GuestState
guest = record {
  gprs = λ k. k;
  rip = 0x1000;
  rflags = 2;
  cr0 = 0x80000001;
  cr3 = 0x2000;
  cr4 = 0x20;
  efer = 0x500;
}

abbrev exit_of : ℕ → ExitInfo
exit_of qualification = record {
  reason = 0x1C;
  qualification = qualification;
  instruction_length = 3;
}

handle_cr-handle_cr_access_example :
    (handle_cr (exit_of 3) guest ≡ handle_cr_access (exit_of 0x13) guest)
    × (handle_cr (exit_of 0x13) guest ≡ handle_cr_access (exit_of 3) guest)
handle_cr-handle_cr_access_example =
    handle_cr-handle_cr_access (exit_of 3) (exit_of 0x13) guest 3 (inr (inl refl)) refl refl refl

abbrev ports : Ports
ports = record { read8 = λ p. 1; read16 = λ p. 2; read32 = λ p. 3 }
