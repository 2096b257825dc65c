-- ===== src/Backend.antt =====
-- The vendor-neutral part of the hypervisor, hypervisor/common/hypervisorbackend.c: the choice of a
-- backend and the control register and I/O exits. VmxInit, which the repository does not define, and
-- SvmInit are an argument; IoRead8, IoRead16 and IoRead32 are functions, IoWrite8 a log.
pub mod Exits
mod Tests
use bemi_bios.Prelude.{
  ℕ, ◌+◌, ◌*◌, ◌/◌, ◌%◌, ◌^◌, Bool, true, false, ◌&&◌, ◌||◌, List, [], ◌∷◌, Option, none, some,
  ◌==◌, if◌then◌else◌, Array, update, add64,
}
use bemi_bios.Efi.{EfiStatus, success, unsupported}
use bemi_bios.VmxExit.{Registers, GuestState, ExitInfo, advance, rax, read_cr, write_cr}
use bemi_bios.VmxSetup.{Vendor, intel, amd, unknown}

-- HypervisorDetectVendor: the vendor string of CPUID leaf 0, as its three registers.
unfoldable pub vendor_of : Registers → Vendor
vendor_of r =
    if r.ebx == 0x756E6547 && (r.edx == 0x49656E69 && r.ecx == 0x6C65746E)
    then intel
    else if r.ebx == 0x68747541 && (r.edx == 0x69746E65 && r.ecx == 0x444D4163)
    then amd
    else unknown

-- gHypervisorBackend: its vendor, and whose functions it points to.
pub record HypervisorBackend : Type 0 where
  pub vendor : Vendor
  pub functions : Option Vendor

-- HypervisorBackendInit, by what the Init functions return for the processor count.
unfoldable pub choose_backend :
    (Vendor → ℕ → EfiStatus) → Registers → ℕ → EfiStatus × HypervisorBackend
choose_backend init r count = elim (vendor_of r) [
  | intel ↦ (init intel count, record { vendor = intel; functions = some intel })
  | amd ↦ (init amd count, record { vendor = amd; functions = some amd })
  | unknown ↦ (unsupported, record { vendor = unknown; functions = none })
]

-- HandleCrAccess
unfoldable pub handle_cr : ExitInfo → GuestState → GuestState
handle_cr info g =
    let number = info.qualification % 16 in
    let access = info.qualification / 2 ^ 4 % 4 in
    if access == 0
    then advance info (
        if number == 0 || (number == 3 || number == 4)
        then record g { gprs = update g.gprs rax (read_cr g number) }
        else g)
    else advance info (write_cr g number (g.gprs rax))

pub record Ports : Type 0 where
  pub read8 : ℕ → ℕ
  pub read16 : ℕ → ℕ
  pub read32 : ℕ → ℕ

abbrev pub com1 : ℕ
com1 = 0x3F8

abbrev pub io_port : ExitInfo → ℕ
io_port info = info.qualification / 2 ^ 16 % 2 ^ 16

abbrev pub io_is_write : ExitInfo → Bool
io_is_write info = info.qualification / 2 ^ 3 % 2 == 0

abbrev pub io_size : ExitInfo → ℕ
io_size info = info.qualification % 8

abbrev pub set_rax : GuestState → ℕ → GuestState
set_rax g value = record g { gprs = update g.gprs rax value }

-- The reads of the switch over the size.
abbrev pub read_port : Ports → ExitInfo → GuestState → GuestState
read_port ports info g =
    let port = io_port info in
    if io_size info == 0
    then set_rax g (g.gprs rax / 2 ^ 8 * 2 ^ 8 + ports.read8 port % 2 ^ 8)
    else if io_size info == 1
    then set_rax g (g.gprs rax / 2 ^ 16 * 2 ^ 16 + ports.read16 port % 2 ^ 16)
    else if io_size info == 2
    then set_rax g (ports.read32 port)
    else g

-- HandleIoExit, with the log of port writes, the newest first.
unfoldable pub handle_io_exit :
    Ports → ExitInfo → GuestState → List (ℕ × ℕ) → GuestState × List (ℕ × ℕ)
handle_io_exit ports info g log =
    let port = io_port info in
    if port == com1
    then if io_is_write info
      then (advance info g, (port, g.gprs rax % 2 ^ 8) ∷ log)
      else (advance info (set_rax g (ports.read8 port)), log)
    else if io_is_write info
    then (advance info g, log)
    else (advance info (read_port ports info g), log)
