-- ===== src/TraceCache.antt =====
-- The trace cache of performance/tcache/tracecache.c. The region that TraceCacheInit is given holds
-- a header, then entries of 64 bytes, which the code addresses by NextAlloc, and the table of bucket
-- heads in its last 512 KB. An entry's address is its slot number here: slot k is at BaseAddress +
-- 64 k. The code lets the entries grow into the bucket table; an insertion whose entry would overlap
-- it is an outcome of its own, at which the model stops.
pub mod Chains
pub mod Valid
pub mod Inserts
pub mod Runs
pub mod Keys
pub mod Contents
pub mod Removal
pub mod Overlap
pub mod Evict
mod Tests
use bemi_bios.Prelude.{
  ℕ, zero, suc, ◌+◌, ◌-◌, ◌*◌, ◌/◌, ◌%◌, ◌^◌, Bool, true, false, ◌&&◌, ◌||◌, not, Option, none,
  some, List, [], ◌∷◌, ltb, leb, ◌==◌, if◌then◌else◌, Array, update, inc32, dec32, inc64, low32,
  bit_or, bit_xor,
}
use bemi_bios.Efi.{EfiStatus, success, not_ready}

abbrev pub default_size : ℕ
default_size = 0x400000

abbrev pub hash_buckets : ℕ
hash_buckets = 65536

abbrev pub max_entries : ℕ
max_entries = 131072

-- sizeof(TRACE_CACHE_HEADER), sizeof(TRACE_CACHE_ENTRY) and the bytes of the bucket table.
abbrev pub header_bytes : ℕ
header_bytes = 56

abbrev pub entry_bytes : ℕ
entry_bytes = 64

abbrev pub bucket_bytes : ℕ
bucket_bytes = 0x80000

-- TRACE_CACHE_ENTRY; Next is the slot of the next entry.
pub record TraceEntry : Type 0 where
  pub rip : ℕ
  pub context : ℕ
  pub translated_addr : ℕ
  pub micro_op_count : ℕ
  pub instruction_count : ℕ
  pub execution_count : ℕ
  pub pin_count : ℕ
  pub dbo_hint : ℕ
  pub lru_counter : ℕ
  pub valid : Bool
  pub next : Option ℕ

-- TRACE_CACHE_HEADER with the entries and the bucket heads; next_slot stands for NextAlloc.
pub record TraceCache : Type 0 where
  pub size : ℕ
  pub next_slot : ℕ
  pub entry_count : ℕ
  pub lru : ℕ
  pub initialized : Bool
  pub lru_scan_depth : ℕ
  pub target_hit_rate : ℕ
  pub buckets : Array (Option ℕ)
  pub slots : Array TraceEntry

-- The header and the table that TraceCacheInit sets up.
abbrev pub fresh : Array TraceEntry → ℕ → TraceCache
fresh memory region = record {
  size = region - header_bytes;
  next_slot = 0;
  entry_count = 0;
  lru = 0;
  initialized = true;
  lru_scan_depth = 64;
  target_hit_rate = 75;
  buckets = λ b. none;
  slots = memory;
}

-- A header that is all zeros.
abbrev pub cleared : Array TraceEntry → TraceCache
cleared memory = record {
  size = 0;
  next_slot = 0;
  entry_count = 0;
  lru = 0;
  initialized = false;
  lru_scan_depth = 0;
  target_hit_rate = 0;
  buckets = λ b. none;
  slots = memory;
}

-- TraceCacheInit for a region of a size, the memory before it an argument. In a region of at most 512
-- KB and 40 bytes the bucket table covers the header or at least its Initialized, at 40 bytes, and the
-- second ZeroMem clears it; what is left of the header no operation reads then. A table that covers
-- only the last 15 bytes of the header is `none`: those sizes, 0x80029 to 0x80037, are not modelled.
unfoldable pub start : Array TraceEntry → ℕ → Option (EfiStatus × TraceCache)
start memory region =
    if leb region (bucket_bytes + 40)
    then some (success, cleared memory)
    else if ltb region (bucket_bytes + header_bytes)
    then none
    else some (success, fresh memory region)

-- TraceCacheInit. With address 0 gTraceCache is NULL, which every operation takes for a cache that is
-- not initialised.
unfoldable pub init : Array TraceEntry → ℕ → ℕ → Option (EfiStatus × TraceCache)
init memory base bytes =
    if base == 0
    then some (success, cleared memory)
    else start memory (if ltb bytes 4096 then default_size else bytes)

-- TraceCacheV71Configure and TraceCacheV72Init, by the depth and the rate that they set.
unfoldable pub configure : ℕ → ℕ → TraceCache → EfiStatus × TraceCache
configure depth rate s =
    if s.initialized
    then (success, record s { lru_scan_depth = depth; target_hit_rate = rate })
    else (not_ready, s)

abbrev pub v71_configure : TraceCache → EfiStatus × TraceCache
v71_configure s = configure 128 80 s

abbrev pub v72_init : TraceCache → EfiStatus × TraceCache
v72_init s = configure 256 92 s

-- TraceCacheHash
unfoldable pub hash : ℕ → ℕ → ℕ
hash rip context =
    let h = bit_xor rip (context * 2 ^ 7 % 2 ^ 64) in
    let h' = bit_xor h (h / 2 ^ 32) in bit_xor h' (h' / 2 ^ 16) % hash_buckets

-- The slots that a loop `while (entry != NULL) entry = entry->Next` visits, up to a given number.
unfoldable pub chain : Array TraceEntry → ℕ → Option ℕ → List ℕ
chain slots zero at = []
chain slots (suc n) none = []
chain slots (suc n) (some k) = k ∷ chain slots n (slots k).next

-- The most entries that the region can hold.
abbrev pub slot_count : TraceCache → ℕ
slot_count s = s.size / entry_bytes

abbrev pub bucket_chain : TraceCache → ℕ → List ℕ
bucket_chain s b = chain s.slots (slot_count s) (s.buckets b)

abbrev pub entry_hits : TraceEntry → ℕ → ℕ → Bool
entry_hits e rip context = e.rip == rip && (e.context == context && e.valid)

unfoldable pub first_hit : Array TraceEntry → ℕ → ℕ → List ℕ → Option ℕ
first_hit slots rip context [] = none
first_hit slots rip context (k ∷ ks) =
    let rest = first_hit slots rip context ks in
    if entry_hits (slots k) rip context then some k else rest

-- The search of TraceCacheLookup and of TraceCacheInsert.
unfoldable pub find : TraceCache → ℕ → ℕ → Option ℕ
find s rip context = first_hit s.slots rip context (bucket_chain s (hash rip context))

-- entry->LruCounter = gTraceCache->LruCounter++: 64 bits into 32
abbrev pub touch : TraceCache → TraceEntry → TraceEntry
touch s e = record e { lru_counter = low32 s.lru }

-- What a hit does to the entry in TraceCacheLookup.
abbrev pub count_execution : TraceCache → TraceEntry → TraceEntry
count_execution s e =
    let count = inc32 e.execution_count in
    record e {
      execution_count = count;
      lru_counter = low32 s.lru;
      dbo_hint = if ltb 100 count then bit_or e.dbo_hint 1 else e.dbo_hint;
    }

abbrev pub set_slot : TraceCache → ℕ → TraceEntry → TraceCache
set_slot s k e = record s { slots = update s.slots k e }

unfoldable pub lookup_found : TraceCache → Option ℕ → Option ℕ × TraceCache
lookup_found s none = (none, s)
lookup_found s (some k) =
    (some k, record (set_slot s k (count_execution s (s.slots k))) { lru = inc64 s.lru })

-- TraceCacheLookup
unfoldable pub lookup : TraceCache → ℕ → ℕ → Option ℕ × TraceCache
lookup s rip context = if s.initialized then lookup_found s (find s rip context) else (none, s)

-- The state of the scan of TraceCacheEvictLru.
pub record Scan : Type 0 where
  pub min_lru : ℕ
  pub victim : Option ℕ
  pub scanned : ℕ

-- The inner loop's body, and the loop over a chain; it stops when `depth` entries are scanned.
abbrev pub scan_entry : Array TraceEntry → ℕ → Scan → Scan
scan_entry slots k c =
    if (slots k).valid && (slots k).pin_count == 0
    then if ltb (slots k).lru_counter c.min_lru
      then record { min_lru = (slots k).lru_counter; victim = some k; scanned = c.scanned + 1 }
      else record c { scanned = c.scanned + 1 }
    else c

unfoldable pub scan_chain : Array TraceEntry → ℕ → List ℕ → Scan → Scan
scan_chain slots depth [] c = c
scan_chain slots depth (k ∷ ks) c =
    if ltb c.scanned depth then scan_chain slots depth ks (scan_entry slots k c) else c

-- The outer loop, with the number of buckets that are left.
unfoldable pub scan_buckets : TraceCache → ℕ → Scan → Scan
scan_buckets s zero c = c
scan_buckets s (suc n) c =
    let bucket = (s.lru % hash_buckets + (hash_buckets - suc n)) % hash_buckets in
    if ltb c.scanned s.lru_scan_depth
    then scan_buckets s n (scan_chain s.slots s.lru_scan_depth (bucket_chain s bucket) c)
    else c

abbrev pub clear_valid : TraceEntry → TraceEntry
clear_valid e = record e { valid = false }

unfoldable pub drop_victim : TraceCache → Option ℕ → TraceCache
drop_victim s none = s
drop_victim s (some k) = record (set_slot s k (clear_valid (s.slots k))) {
  entry_count = dec32 s.entry_count;
}

abbrev pub first_scan : Scan
first_scan = record { min_lru = 2 ^ 64 - 1; victim = none; scanned = 0 }

-- TraceCacheEvictLru
unfoldable pub evict_lru : TraceCache → TraceCache
evict_lru s = drop_victim s (scan_buckets s hash_buckets first_scan).victim

-- The slot that NextAlloc gives, back at the first one behind the last.
abbrev pub take_slot : TraceCache → ℕ
take_slot s = if ltb s.size ((s.next_slot + 1) * entry_bytes) then 0 else s.next_slot

-- Whether an entry at a slot ends below the bucket table.
abbrev pub below_buckets : TraceCache → ℕ → Bool
below_buckets s k = leb ((k + 1) * entry_bytes + bucket_bytes) s.size

abbrev pub new_entry : TraceCache → ℕ → ℕ → TraceEntry
new_entry s rip context = record {
  rip = rip;
  context = context;
  translated_addr = 0;
  micro_op_count = 0;
  instruction_count = 0;
  execution_count = 1;
  pin_count = 0;
  dbo_hint = 0;
  lru_counter = low32 s.lru;
  valid = true;
  next = s.buckets (hash rip context);
}

-- The new entry linked into its bucket.
abbrev pub link : TraceCache → ℕ → ℕ → ℕ → TraceCache
link s k rip context = record s {
  next_slot = k + 1;
  entry_count = inc32 s.entry_count;
  lru = inc64 s.lru;
  buckets = update s.buckets (hash rip context) (some k);
  slots = update s.slots k (new_entry s rip context);
}

abbrev pub make_room : TraceCache → TraceCache
make_room s = if leb max_entries s.entry_count then evict_lru s else s

unfoldable pub add_entry : TraceCache → ℕ → ℕ → Option (Option ℕ × TraceCache)
add_entry s rip context =
    let k = take_slot s in if below_buckets s k then some (some k, link s k rip context) else none

unfoldable pub insert_found : TraceCache → ℕ → ℕ → Option ℕ → Option (Option ℕ × TraceCache)
insert_found s rip context none = add_entry (make_room s) rip context
insert_found s rip context (some k) =
    some (some k, record (set_slot s k (touch s (s.slots k))) { lru = inc64 s.lru })

-- TraceCacheInsert; `none` when the new entry would overlap the bucket table.
unfoldable pub insert : TraceCache → ℕ → ℕ → Option (Option ℕ × TraceCache)
insert s rip context =
    if s.initialized then insert_found s rip context (find s rip context) else some (none, s)

-- TraceCachePinEntry and TraceCacheUnpinEntry: a change of the pin count after a lookup.
abbrev pub set_pins : (ℕ → ℕ) → TraceEntry → TraceEntry
set_pins f e = record e { pin_count = f e.pin_count }

unfoldable pub pin_found : (ℕ → ℕ) → Option ℕ × TraceCache → TraceCache
pin_found f (none, s) = s
pin_found f (some k, s) = set_slot s k (set_pins f (s.slots k))

unfoldable pub change_pins : (ℕ → ℕ) → TraceCache → ℕ → ℕ → TraceCache
change_pins f s rip context = pin_found f (lookup s rip context)

abbrev pub pin_entry : TraceCache → ℕ → ℕ → TraceCache
pin_entry s rip context = change_pins inc32 s rip context

abbrev pub unpin_entry : TraceCache → ℕ → ℕ → TraceCache
unpin_entry s rip context = change_pins (λ n. if ltb 0 n then dec32 n else n) s rip context

-- The inner loop of TraceCacheInvalidate over one chain, and the loop over the first n buckets.
unfoldable pub invalidate_chain : ℕ → List ℕ → Array TraceEntry → Array TraceEntry
invalidate_chain rip [] slots = slots
invalidate_chain rip (k ∷ ks) slots = invalidate_chain rip ks (
    if (slots k).valid && (slots k).rip == rip
    then update slots k (clear_valid (slots k))
    else slots)

unfoldable pub invalidate_buckets : ℕ → TraceCache → ℕ → TraceCache
invalidate_buckets rip s zero = s
invalidate_buckets rip s (suc n) =
    let b = hash_buckets - suc n in
    invalidate_buckets rip (record s { slots = invalidate_chain rip (bucket_chain s b) s.slots }) n

-- TraceCacheInvalidate
unfoldable pub invalidate : TraceCache → ℕ → TraceCache
invalidate s rip = invalidate_buckets rip s hash_buckets

-- The loop of TraceCacheWarmKernel, with the number of blocks that are left and the next address;
-- the insertions are for context 0. TraceCacheDboPrefill is the same loop with counts set.
unfoldable pub warm_blocks : TraceCache → ℕ → ℕ → Option TraceCache
warm_blocks s rip zero = some s
warm_blocks s rip (suc n) = elim (insert s rip 0) [
  | none ↦ none
  | some (_, s') ↦ warm_blocks s' ((rip + 64) % 2 ^ 64) n
]

-- TraceCacheWarmKernel, for a size at which `offset += 64` does not wrap.
unfoldable pub warm_kernel : TraceCache → ℕ → ℕ → Option TraceCache
warm_kernel s base bytes = warm_blocks s (base % 2 ^ 64) ((bytes + 63) / 64)

-- TraceCacheDboPrefill
abbrev pub mark_hot : TraceEntry → TraceEntry
mark_hot e = record e { execution_count = 200; dbo_hint = 1 }

unfoldable pub mark_found : Option ℕ → TraceCache → TraceCache
mark_found none s = s
mark_found (some k) s = set_slot s k (mark_hot (s.slots k))

unfoldable pub prefill_blocks : TraceCache → ℕ → ℕ → ℕ → Option TraceCache
prefill_blocks s base zero i = some s
prefill_blocks s base (suc n) i = elim (insert s ((base + i * 64 % 2 ^ 32) % 2 ^ 64) 0) [
  | none ↦ none
  | some (hit, s') ↦ prefill_blocks (mark_found hit s') base n (i + 1)
]

unfoldable pub dbo_prefill : TraceCache → ℕ → ℕ → Option TraceCache
dbo_prefill s base count =
    if s.initialized then prefill_blocks s base (if ltb 0 count then count else 64) 0 else some s

-- TraceCacheGetV71HitRate
abbrev pub get_hit_rate : TraceCache → ℕ
get_hit_rate s = if s.initialized then s.target_hit_rate else 0
