-- ===== src/Backend/Exits.antt =====
-- The exits of hypervisorbackend.c beside those of vmxcore.c.
use bemi_bios.Prelude.{ℕ, ◌+◌, ◌^◌, ◌≤◌, ◌≡◌, ◌≢◌, ◌⊎◌, inl, inr, refl, ◌∙◌, true, List, arith}
use bemi_bios.VmxExit.{GuestState, ExitInfo, advance, handle_cr_access}
use bemi_bios.Backend.{Ports, com1, io_port, io_is_write, io_size, handle_cr, handle_io_exit}

-- The two HandleCrAccess of the repository take the access types the other way round. For CR0, CR3 or
-- CR4 and RAX, what one does on a move to the control register the other does on a move from it.
pub handle_cr-handle_cr_access :
    (to from : ExitInfo) (g : GuestState) (number : ℕ)
    → (number ≡ 0) ⊎ ((number ≡ 3) ⊎ (number ≡ 4))
    → to.qualification ≡ number
    → from.qualification ≡ number + 2 ^ 4
    → to.instruction_length ≡ from.instruction_length
    → (handle_cr to g ≡ handle_cr_access from g) × (handle_cr from g ≡ handle_cr_access to g)
unfolding handle_cr handle_cr_access
handle_cr-handle_cr_access to from g number (inl e) t f same =
    let t' : to.qualification ≡ 0 = t ∙ e in
    let f' : from.qualification ≡ 16 = omega (arith, e, f) in
    rw (handle_cr, handle_cr_access, t', f', same) (refl, refl)
handle_cr-handle_cr_access to from g number (inr (inl e)) t f same =
    let t' : to.qualification ≡ 3 = t ∙ e in
    let f' : from.qualification ≡ 19 = omega (arith, e, f) in
    rw (handle_cr, handle_cr_access, t', f', same) (refl, refl)
handle_cr-handle_cr_access to from g number (inr (inr e)) t f same =
    let t' : to.qualification ≡ 4 = t ∙ e in
    let f' : from.qualification ≡ 20 = omega (arith, e, f) in
    rw (handle_cr, handle_cr_access, t', f', same) (refl, refl)

-- Off the serial port a write, and a read of the size code 3 or more, has no effect: no port is
-- written, and the guest only goes on behind the instruction.
pub handle_io_exit-ignored :
    (ports : Ports) (info : ExitInfo) (g : GuestState) (log : List (ℕ × ℕ))
    → io_port info ≢ com1
    → (io_is_write info ≡ true) ⊎ (3 ≤ io_size info)
    → handle_io_exit ports info g log ≡ (advance info g, log)
unfolding handle_io_exit
handle_io_exit-ignored ports info g log other ignored = ground arith
