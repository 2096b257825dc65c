-- ===== src/L0Cache/Units.antt =====
-- The units together: initialisation, the guard, and invalidation in every unit.
use bemi_bios.Prelude.{
  ℕ, zero, suc, ◌+◌, ◌≤◌, ◌<◌, ◌≡◌, ◌≢◌, ◌⊎◌, inl, inr, refl, Bool, true, Option, none, some, ltb,
  ◌==◌, if◌then◌else◌, Array, update, arith, Bool-cases, Option-cases, lt→ltb,
}
use bemi_bios.Efi.{success}
use bemi_bios.L0Cache.{
  l0_max_units, MicroCache, L0Caches, zero_cache, init_units, init, ready_cache, read, write,
  invalidate_line, invalidate_unit, invalidate_from, invalidate,
}
use bemi_bios.L0Cache.Lines.{read_cache-invalidate_line}

ready_of :
    (s : L0Caches) (u : ℕ) (c : MicroCache)
    → u < s.active_units
    → s.caches u ≡ some c
    → c.initialized ≡ true
    → ready_cache s u ≡ some c
unfolding ready_cache
ready_of s u c h e i = rw (lt→ltb _ _ h, e) (rw i)

not_ready_of : (s : L0Caches) (u : ℕ) → s.active_units ≤ u → ready_cache s u ≡ none
unfolding ready_cache
not_ready_of s u h = ground arith

-- The guard looks at the unit's own pointer only.
ready_cong :
    (s t : L0Caches) (u : ℕ)
    → t.caches u ≡ s.caches u
    → t.active_units ≡ s.active_units
    → ready_cache t u ≡ ready_cache s u
unfolding ready_cache
ready_cong s t u e h = rw (e, h)

read_cong :
    (s t : L0Caches) (u addr size : ℕ) (has_room : Bool)
    → ready_cache t u ≡ ready_cache s u
    → ((read t u addr has_room size).0 ≡ (read s u addr has_room size).0)
      × ((read t u addr has_room size).1 ≡ (read s u addr has_room size).1)
unfolding read
read_cong s t u addr size has_room e = elim (Option-cases (ready_cache s u)) [
  | inl n ↦ ground (arith, e)
  | inr (c, n) ↦ ground (arith, e)
]

write_keeps :
    (s : L0Caches) (u addr size : ℕ) (buffer : Array ℕ) (has_data : Bool) (v : ℕ)
    → u ≢ v
    → let t = (write s u addr has_data buffer size).1 in
      (t.caches v ≡ s.caches v) × (t.active_units ≡ s.active_units)
unfolding write
write_keeps s u addr size buffer has_data v ne = elim (Option-cases (ready_cache s u)) [
  | inl n ↦ ground arith
  | inr (c, n) ↦ ground arith
]

init_units-ready :
    (given : ℕ → Bool) (rounds u : ℕ) (s : L0Caches)
    → (init_units given rounds u s).0 ≡ success
    → ((v : ℕ)
        → u ≤ v
        → v < u + rounds
        → (init_units given rounds u s).1.caches v ≡ some zero_cache)
      × ((v : ℕ) → v < u → (init_units given rounds u s).1.caches v ≡ s.caches v)
      × ((init_units given rounds u s).1.active_units ≡ s.active_units)
unfolding init_units
init_units-ready given zero u s h = (λ v lo hi. absurd (omega arith), λ v lt. refl, refl)
init_units-ready given (suc rounds) u s h = elim (Bool-cases (given u)) [
  | inr e ↦ absurd (ground arith)
  | inl e ↦
      let placed = record s { caches = update s.caches u (some zero_cache) } in
      let (ready, before, active) = init_units-ready given rounds (u + 1) placed (ground arith) in
      rw e (λ v lo hi. ground (arith, ready v, before v), λ v lt. ground (arith, before v), active)
]

-- If L0CacheInit succeeds, exactly the units below min(units, 84) pass the guard of the accesses,
-- each with an empty cache.
pub init-ready :
    (given : ℕ → Bool) (units : ℕ) (s : L0Caches)
    → (init given units s).0 ≡ success
    → let t = (init given units s).1 in
      (t.active_units ≤ l0_max_units)
      × ((u : ℕ) → u < t.active_units → ready_cache t u ≡ some zero_cache)
      × ((u : ℕ) → t.active_units ≤ u → ready_cache t u ≡ none)
unfolding init
init-ready given units s h =
    let active = if ltb l0_max_units units then l0_max_units else units in
    let empty : L0Caches = record { caches = λ _. none; active_units = active } in
    let (ready, _, same) = init_units-ready given active 0 empty h in
    let t = (init_units given active 0 empty).1 in
    let most : active ≤ l0_max_units = ground arith in
    (
      omega (arith, same, most),
      λ u lt. ready_of t u zero_cache lt (ready u (omega arith) (omega (arith, same))) refl,
      λ u le. not_ready_of t u le,
    )

-- A write on one unit is not seen by another: no other unit's cache changes, so a line that the
-- other unit holds still reads as before.
pub read-write_other :
    (s : L0Caches) (u v addr size other_addr other_size : ℕ) (buffer : Array ℕ)
    (has_data has_room : Bool)
    → u ≢ v
    → let t = (write s u addr has_data buffer size).1 in
      let (status, out, _) = read t v other_addr has_room other_size in
      let (old_status, old_out, _) = read s v other_addr has_room other_size in
      (status ≡ old_status) × (out ≡ old_out)
read-write_other s u v addr size other_addr other_size buffer has_data has_room ne =
    let (same, active) = write_keeps s u addr size buffer has_data v ne in
    read_cong s (write s u addr has_data buffer size).1 v other_addr other_size has_room
      (ready_cong s _ v same active)

invalidate_from-at :
    (rounds u addr : ℕ) (caches : Array (Option MicroCache)) (v : ℕ)
    → ((u ≤ v) × (v < u + rounds)
        → invalidate_from rounds u addr caches v ≡ invalidate_unit (caches v) addr)
      × ((v < u) ⊎ (u + rounds ≤ v) → invalidate_from rounds u addr caches v ≡ caches v)
unfolding invalidate_from
invalidate_from-at zero u addr caches v = (λ h. absurd (omega arith), λ h. refl)
invalidate_from-at (suc rounds) u addr caches v =
    let (inside, outside) =
      invalidate_from-at rounds (u + 1) addr (update caches u (invalidate_unit (caches u) addr))
        v in
    (
      λ h. elim (Bool-cases (v == u)) [
        | inl e ↦ ground (arith, outside (inl (ground arith)))
        | inr e ↦ ground (arith, inside (ground arith))
      ],
      λ h. ground (arith, outside (ground arith)),
    )

-- The unit's cache after an invalidation is its old one with the line dropped.
ready-invalidate :
    (s : L0Caches) (u addr : ℕ)
    → ready_cache (invalidate s addr) u
      ≡ elim (ready_cache s u) [ none ↦ none | some c ↦ some (invalidate_line c addr) ]
unfolding ready_cache invalidate invalidate_line
ready-invalidate s u addr = elim (Bool-cases (ltb u s.active_units)) [
  | inr e ↦ rw e
  | inl e ↦
      let at = (invalidate_from-at s.active_units 0 addr s.caches u).0 (ground arith) in
      rw (e, at) (ground arith)
]

-- After L0CacheInvalidate no unit has a hit on the address.
pub read-invalidate :
    (s : L0Caches) (u addr size : ℕ) (has_room : Bool)
    → (read (invalidate s addr) u addr has_room size).0 ≢ success
unfolding read
read-invalidate s u addr size has_room h = elim (Option-cases (ready_cache s u)) [
  | inl n ↦ ground (arith, ready-invalidate s u addr)
  | inr (c, n) ↦
      ground
        (arith, ready-invalidate s u addr, read_cache-invalidate_line c addr addr size has_room)
]
