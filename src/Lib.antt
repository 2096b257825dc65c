-- ===== src/Lib.antt =====
-- Bemi BIOS: a model of the firmware's C sources, and what holds of them.
--
-- The firmware keeps a set of software structures beside the processor's own: schedulers, caches
-- and predictors under performance/, shadows of processor registers under hwcompat/, and the exit
-- handling of a thin hypervisor under hypervisor/. Each of them is a file of C with static state and
-- functions on it. Here each is a module: the static variables are a record, the functions are
-- definitions on it with the names of the source (without the prefix that the source repeats), and
-- the theorems stand in the modules below it. The parts meet in the hypervisor: the exit handler takes
-- pending interrupts from the APIC shadow, and the SVM side calls the handlers of the VMX side and the
-- APIC shadow; and in the DXE driver, whose entry point starts the SMM handler, the trace cache, the
-- memory compressor and CPUID spoofing. The others are used alone.
--
-- Files and sources:
-- - Rob, with Rob.*: performance/rob/robdistributor.c, the banked reorder buffer of version 7.1
--   (RobDistributorInit, RobAllocateEntry, RobRetireEntry, RobTick and the counts). BankSearch is
--   the search for a bank with room; its fuel is the number of banks, since the loop of the source
--   goes round once.
-- - V72Rob, with V72Rob.*: the same file's version 7.2 (the functions with V72 in their names): a
--   compressed main ring, extended banks and a table of metadata. A NULL pointer is a flag of the
--   state, and an access through it is an outcome of its own.
-- - L0Cache: performance/l0cache/l0microcache.c. L0Cache.Lines has one cache, L0Cache.Units all.
-- - Tage: performance/tage/tagepredictor.c, the branch predictor and its prefill.
-- - MacroFusion: performance/fusion/macroopfusion.c. The fusion into the two versions of its buffers is
--   one definition with the array sizes as an argument; the lookup reads the first version only.
-- - InterruptLatency: performance/interrupt/interruptlatency.c, the queue of interrupt events.
-- - MsrShadow: hwcompat/msr/msrshadow.c, the table of shadowed MSRs.
-- - ApicShadow: hwcompat/apic/ApicShadow.c, the local APIC's registers and timer, and the 8259
--   masks.
-- - SmmHandler: hwcompat/smm/smmhandler.c, the state and latency statistics of SMIs.
-- - BwGovernor: performance/bwgov/bandwidthgovernor.c, the three states of the bandwidth governor, and
--   MemoryCompressor: performance/bwgov/memorycompressor.c, its counters. Doubles has the type of their
--   doubles, a parameter of both, of whose arithmetic nothing is assumed.
-- - TraceCache: performance/tcache/tracecache.c, the trace cache, its hash chains, its eviction and the
--   warming of a kernel. A loop over a chain runs over the list of the slots that it visits; as fuel
--   it has the number of slots in the region, which is enough as long as a link leads to an earlier
--   slot (TraceCache.Keys). An insertion that would write over the bucket table is an outcome of its
--   own, at which the model stops.
-- - CpuidSpoof: hwcompat/cpuid/cpuidspoof.c, the table of CPUID answers and its handler.
-- - VmxSetup: hypervisor/vmx/vmxcore.c, lines 119 to 407: the set-up of a virtual processor; with
--   BemiVmWrite of hypervisor/vmx/vmxasm.nasm.
-- - SvmCore: hypervisor/svm/svmcore.c, the same for SVM, with its exit handler and its loop.
-- - Backend: hypervisor/common/hypervisorbackend.c, the choice of a backend and two exits.
-- - Post: bemibiospkg/bemibioscore/post/postroutines.c, the topology, the support for virtualisation,
--   the number of threads and the memory test.
-- - Driver: bemibiospkg/bemibioscore/dxe/bemibioscore.c, the entry point and the protocol, which put the
--   parts together: Driver.Start has the entry point, Driver.Hypervisor the start of the hypervisor.
-- - Legacy: legacy/csm/CsmModule.c, the BIOS interrupts 13h and 15h, and legacy/boot/BootProtocol.c, the
--   search for a boot sector. Acpi: hwcompat/acpi/AcpiTables.c, the MADT; the bytes of the structures
--   that EDK II declares are a parameter, the record Layout. Smbios: hwcompat/smbios/SmbiosTables.c,
--   the three structures and their blocks of strings.
-- - VmxExit: hypervisor/vmx/vmxcore.c, lines 409 to 721: BemiVmxExitHandler and the handlers that it
--   calls, with the structs of hypervisor/common/hypervisorbackend.h.
-- - Efi has the EFI_STATUS values that these files return; Prelude passes on the library's names and
--   has machine words, arrays, Boolean tests and lists.
--
-- Conventions. A UINT32 or UINT64 is a native number, and its wrap is written out (inc64, sub64 and
-- so on in Prelude.Words). A C array is a function of its index; that indices stay in range is part
-- of the well-formedness invariants. Pool allocations are Boolean arguments (whether a block was
-- returned), the time stamp counter an argument `now`, CPUID and MSR reads functions, MSR writes a
-- log. A bit of a register is read, set and cleared by its arithmetic (bit_is_set, set_bit and
-- clear_bit of ApicShadow). Loops over arrays recurse on the number of rounds that the C loop has
-- left, and the loops that the source leaves early return the index.
--
-- What the code takes from outside: AsmMsb32 is not defined in the repository; it is a parameter, and
-- nothing is assumed of it. The C files call BemiVmRead with one argument, which no declaration has:
-- what it returns is a parameter too. Their calls of BemiVmWrite are a log of fields and values;
-- VmxSetup.vm_write has what the routine of hypervisor/vmx/vmxasm.nasm does with such a call. The
-- variable services of UEFI answer with statuses, and SetVariable stores only when it succeeds.
-- TraceCacheInit is not modelled for regions of 0x80029 to 0x80037 bytes, where the bucket table clears
-- the end of the header.
--
-- Not modelled: the statistics of the other parts that are doubles, and functions that only print; the
-- stub for legacy option ROMs, which prints; the other assembly stubs; the Rust translator under dbt;
-- the Python simulator; and the copies of sources in docs.
pub mod Prelude
pub mod Efi
pub mod BankSearch
pub mod Rob
pub mod V72Rob
pub mod MsrShadow
pub mod L0Cache
pub mod Tage
pub mod VmxExit
pub mod ApicShadow
pub mod MacroFusion
pub mod InterruptLatency
pub mod SmmHandler
pub mod TraceCache
pub mod VmxSetup
pub mod SvmCore
pub mod Backend
pub mod CpuidSpoof
pub mod Doubles
pub mod BwGovernor
pub mod MemoryCompressor
pub mod Post
pub mod Legacy
pub mod Acpi
pub mod Smbios
pub mod Driver
