-- ===== src/Post.antt =====
-- The power-on routines of bemibiospkg/bemibioscore/post/postroutines.c: the topology, the support for
-- virtualisation, the number of threads and the memory test. AsmCpuid and AsmCpuidEx are the functions
-- of `Source`, AsmReadMsr64 is an argument.
pub mod Support
pub mod Threads
mod Tests
use bemi_bios.Prelude.{
  ℕ, zero, suc, ◌+◌, ◌*◌, ◌/◌, ◌%◌, ◌^◌, Bool, true, false, ◌&&◌, not, Option, none, some, ltb, leb,
  ◌==◌, if◌then◌else◌, Array, update,
}
use bemi_bios.Efi.{EfiStatus, success, out_of_resources, device_error}
use bemi_bios.ApicShadow.{bit_is_set}
use bemi_bios.VmxExit.{Registers}
use bemi_bios.CpuidSpoof.{Source}

-- The variables threadsPerCore and cores.
pub record Topology : Type 0 where
  pub threads_per_core : ℕ
  pub cores : ℕ

-- One round of the loop over the levels of leaf 0x0B.
abbrev pub read_level : Registers → Topology → Topology
read_level r t =
    let kind = r.ecx / 2 ^ 8 % 2 ^ 8 in
    if kind == 1
    then record t { threads_per_core = r.ebx % 2 ^ 16 }
    else if kind == 2
    then record t { cores = r.ebx % 2 ^ 16 }
    else t

abbrev pub one_thread : Topology
one_thread = record { threads_per_core = 1; cores = 0 }

-- The levels, or the count of leaf 1 on a processor without them.
unfoldable pub read_topology : Source → ℕ → Topology
read_topology p max_leaf =
    if leb 0xB max_leaf
    then read_level (p.cpuid_ex 0xB 1) (read_level (p.cpuid_ex 0xB 0) one_thread)
    else if leb 1 max_leaf
    then record one_thread { threads_per_core = (p.cpuid 1).ebx / 2 ^ 16 % 2 ^ 8 }
    else one_thread

-- ways * partitions * lineSize * sets on UINT32
abbrev pub cache_bytes : Registers → ℕ
cache_bytes r =
    let ways = r.ebx / 2 ^ 22 % 2 ^ 10 + 1 in
    let partitions = r.ebx / 2 ^ 12 % 2 ^ 10 + 1 in
    let line = r.ebx % 2 ^ 12 + 1 in
    let sets = (r.ecx + 1) % 2 ^ 32 in ways * partitions * line * sets % 2 ^ 32

-- The loop over the cache levels, with the number of rounds that are left.
unfoldable pub l3_bytes : Source → ℕ → ℕ → ℕ → ℕ
l3_bytes p cache_level zero found = found
l3_bytes p cache_level (suc n) found =
    let r = p.cpuid_ex 4 cache_level in
    if r.eax % 32 == 0
    then found
    else l3_bytes p (cache_level + 1) n (if r.eax % 32 == 3 then cache_bytes r else found)

-- PostDetectTopology: *CpuCount and *CacheSizes; its status is always success.
unfoldable pub detect_topology : Source → ℕ × ℕ
detect_topology p =
    let max_leaf = (p.cpuid 0).eax in
    let t = read_topology p max_leaf in
    let cores = if t.cores == 0 then t.threads_per_core else t.cores in
    (cores * t.threads_per_core, (if leb 4 max_leaf then l3_bytes p 0 10 0 else 0))

-- PostValidateVmxSupport and PostValidateSvmSupport
unfoldable pub validate_vmx : (ℕ → Registers) → (ℕ → ℕ) → Bool
validate_vmx cpuid read_msr =
    bit_is_set (cpuid 1).ecx 5 && (bit_is_set (read_msr 0x3A) 0 && bit_is_set (read_msr 0x3A) 2)

unfoldable pub validate_svm : (ℕ → Registers) → Bool
validate_svm cpuid = bit_is_set (cpuid 0x80000001).ecx 2

-- PostCalculateThreadCount
unfoldable pub calculate_thread_count : ℕ → ℕ → ℕ
calculate_thread_count cpu_count cache_sizes =
    let l3_mb = cache_sizes / (1024 * 1024) in
    let factor = if leb 16 l3_mb then 4 else if leb 8 l3_mb then 3 else 2 in
    let base = cpu_count * factor % 2 ^ 64 in
    let capped = if ltb 84 base then 84 else base in if ltb capped 1 then 1 else capped

abbrev pub test_pattern : ℕ
test_pattern = 0xDEADBEEFCAFEBABE

-- The memory as the processor sees it: what a word reads after the test has written it.
unfoldable pub write_words : ℕ → Array ℕ → Array ℕ
write_words zero memory = memory
write_words (suc n) memory = update (write_words n memory) n test_pattern

-- The loop that compares the first n words.
unfoldable pub words_match : ℕ → Array ℕ → Bool
words_match zero memory = true
words_match (suc n) memory =
    let rest = words_match n memory in if memory n == test_pattern then rest else false

-- PostExecutePowerOnSelfTest, by the buffer that the pool gives; `faults` is what the memory does to
-- the words that are written.
unfoldable pub self_test : Option (Array ℕ) → (Array ℕ → Array ℕ) → EfiStatus
self_test none faults = out_of_resources
self_test (some memory) faults =
    if words_match 256 (faults (write_words 256 memory)) then success else device_error
