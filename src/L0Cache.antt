-- ===== src/L0Cache.antt =====
-- The direct-mapped micro-caches of performance/l0cache/l0microcache.c, one for each execution
-- unit: 16 lines of 64 bytes.
pub mod Lines
pub mod Stats
pub mod Units
mod Tests
use bemi_bios.Prelude.{
  ℕ, zero, suc, ◌+◌, ◌-◌, ◌*◌, ◌/◌, ◌%◌, ◌^◌, Bool, true, false, ◌&&◌, ◌||◌, not, Option, none,
  some, ltb, leb, ◌==◌, if◌then◌else◌, Array, update, inc64,
}
use bemi_bios.Efi.{EfiStatus, success, not_ready, out_of_resources, warn_not_found}

abbrev pub l0_cache_lines : ℕ
l0_cache_lines = 16

abbrev pub l0_line_size : ℕ
l0_line_size = 64

abbrev pub l0_max_units : ℕ
l0_max_units = 84

pub record CacheLine : Type 0 where
  pub tag : ℕ
  pub valid : Bool
  pub dirty : Bool
  pub bytes : Array ℕ

pub record MicroCache : Type 0 where
  pub lines : Array CacheLine
  pub total_accesses : ℕ
  pub hits : ℕ
  pub misses : ℕ
  pub write_through : ℕ
  pub initialized : Bool

pub record L0Caches : Type 0 where
  pub caches : Array (Option MicroCache)
  pub active_units : ℕ

-- (PhysAddr >> 6) & 15, PhysAddr >> 10 and PhysAddr & 63
abbrev pub cache_index : ℕ → ℕ
cache_index addr = addr / 2 ^ 6 % l0_cache_lines

abbrev pub cache_tag : ℕ → ℕ
cache_tag addr = addr / 2 ^ 10

abbrev pub cache_offset : ℕ → ℕ
cache_offset addr = addr % l0_line_size

abbrev pub zero_cache : MicroCache
zero_cache = record {
  lines = λ _. record { tag = 0; valid = false; dirty = false; bytes = λ _. 0 };
  total_accesses = 0;
  hits = 0;
  misses = 0;
  write_through = 0;
  initialized = true;
}

-- The loop of L0CacheInit from unit u on; `given u` says whether AllocateZeroPool returned a block.
pub init_units : (ℕ → Bool) → ℕ → ℕ → L0Caches → EfiStatus × L0Caches
init_units given zero u s = (success, s)
init_units given (suc rounds) u s =
    let rest =
      init_units given rounds (u + 1) (record s { caches = update s.caches u (some zero_cache) }) in
    if given u then rest else (out_of_resources, record s { caches = update s.caches u none })

pub init : (ℕ → Bool) → ℕ → L0Caches → EfiStatus × L0Caches
unfolding init_units
init given units s =
    let active = if ltb l0_max_units units then l0_max_units else units in
    init_units given active 0 (record { caches = λ _. none; active_units = active })

-- L0CacheV71Init: one cache for each of the V71_THREADS threads.
abbrev pub v71_init : (ℕ → Bool) → L0Caches → EfiStatus × L0Caches
v71_init given s = init given 84 s

-- The line that a miss leaves: valid, clean and zero.
abbrev pub fresh_line : ℕ → CacheLine
fresh_line tag = record { tag = tag; valid = true; dirty = false; bytes = λ _. 0 }

abbrev pub line_hits : CacheLine → ℕ → Bool
line_hits line addr = line.valid && line.tag == cache_tag addr

-- Whether the bytes are copied: a buffer was passed, and they lie in one line.
abbrev pub copies : Bool → ℕ → ℕ → Bool
copies has_data addr size = has_data && leb size (l0_line_size - cache_offset addr)

-- CopyMem(Data, &line->Data[offset], Size): what stands in the buffer afterwards.
abbrev pub copy_out : CacheLine → ℕ → Array ℕ
copy_out line offset k = line.bytes (offset + k)

-- CopyMem(&line->Data[offset], Data, Size)
abbrev pub copy_in : CacheLine → ℕ → Array ℕ → ℕ → CacheLine
copy_in line offset buffer size = record line {
  bytes = λ j. if leb offset j && ltb j (offset + size) then buffer (j - offset) else line.bytes j;
}

-- The status, the bytes that go through Data (if any do), and the cache.
abbrev pub ReadReply : Type 0
ReadReply = EfiStatus × Option (Array ℕ) × MicroCache

-- L0CacheRead on the cache of a unit.
pub read_cache : MicroCache → ℕ → Bool → ℕ → ReadReply
read_cache c addr has_data size =
    let line = c.lines (cache_index addr) in
    let offset = cache_offset addr in
    let new = fresh_line (cache_tag addr) in
    if line_hits line addr
    then (
      success,
      (if copies has_data addr size then some (copy_out line offset) else none),
      record c { total_accesses = inc64 c.total_accesses; hits = inc64 c.hits },
    )
    else (
      warn_not_found,
      (if copies has_data addr size then some (copy_out new offset) else none),
      record c {
        total_accesses = inc64 c.total_accesses;
        misses = inc64 c.misses;
        lines = update c.lines (cache_index addr) new;
      },
    )

-- L0CacheWrite on the cache of a unit; the buffer is NULL where `has_data` is false.
pub write_cache : MicroCache → ℕ → Bool → Array ℕ → ℕ → MicroCache
write_cache c addr has_data buffer size =
    let line = c.lines (cache_index addr) in
    let base = if line_hits line addr then line else fresh_line (cache_tag addr) in
    let new =
      if copies has_data addr size then copy_in base (cache_offset addr) buffer size else base in
    record c {
      total_accesses = inc64 c.total_accesses;
      write_through = inc64 c.write_through;
      lines = update c.lines (cache_index addr) new;
    }

-- The unit's cache, where the guard of L0CacheRead and L0CacheWrite lets the call through.
pub ready_cache : L0Caches → ℕ → Option MicroCache
ready_cache s unit =
    if ltb unit s.active_units
    then elim (s.caches unit) [ none ↦ none | some c ↦ if c.initialized then some c else none ]
    else none

pub read : L0Caches → ℕ → ℕ → Bool → ℕ → EfiStatus × Option (Array ℕ) × L0Caches
read s unit addr has_data size = elim (ready_cache s unit) [
  | none ↦ (not_ready, none, s)
  | some c ↦
      let (status, out, c') = read_cache c addr has_data size in
      (status, out, record s { caches = update s.caches unit (some c') })
]

pub write : L0Caches → ℕ → ℕ → Bool → Array ℕ → ℕ → EfiStatus × L0Caches
write s unit addr has_data buffer size = elim (ready_cache s unit) [
  | none ↦ (not_ready, s)
  | some c ↦ (
    success,
    record s { caches = update s.caches unit (some (write_cache c addr has_data buffer size)) },
  )
]

pub invalidate_line : MicroCache → ℕ → MicroCache
invalidate_line c addr =
    let line = c.lines (cache_index addr) in
    if line_hits line addr
    then record c { lines = update c.lines (cache_index addr) (record line { valid = false }) }
    else c

abbrev invalidate_unit : Option MicroCache → ℕ → Option MicroCache
invalidate_unit none addr = none
invalidate_unit (some c) addr = if c.initialized then some (invalidate_line c addr) else some c

-- The loop of L0CacheInvalidate over the units u, u + 1, ...
pub invalidate_from : ℕ → ℕ → ℕ → Array (Option MicroCache) → Array (Option MicroCache)
invalidate_from zero u addr caches = caches
invalidate_from (suc rounds) u addr caches =
    invalidate_from rounds (u + 1) addr (update caches u (invalidate_unit (caches u) addr))

pub invalidate : L0Caches → ℕ → L0Caches
unfolding invalidate_from
invalidate s addr = record s { caches = invalidate_from s.active_units 0 addr s.caches }
