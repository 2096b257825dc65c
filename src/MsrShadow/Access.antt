-- ===== src/MsrShadow/Access.antt =====
-- MsrShadowWrite followed by MsrShadowRead.
use bemi_bios.Prelude.{
  ℕ, zero, suc, ◌+◌, ◌≡◌, ◌≢◌, ◌⊎◌, inl, inr, refl, true, false, Option, none, some, Array, update,
  arith, if◌then◌else◌, Bool-cases, Option-cases, ◌∷◌,
}
use bemi_bios.Efi.{EfiStatus, success, access_denied}
use bemi_bios.MsrShadow.{
  MsrShadowEntry, MsrShadow, find_from, find_shadow_msr, read, write, read_at, is_pass_through,
}
use bemi_bios.MsrShadow.Find.{Finds, find_shadow_msr-Finds}

-- Storing a value moves no entry.
find_from-store :
    (table : Array MsrShadowEntry) (p value rounds i index : ℕ)
    → find_from (update table p (record (table p) { value = value })) rounds i index
      ≡ find_from table rounds i index
unfolding find_from
find_from-store table p value zero i index = refl
find_from-store table p value (suc rounds) i index =
    rw (find_from-store table p value rounds (i + 1) index) (ground arith)

-- A found entry has the index that was asked for.
pub index_of_found :
    (s : MsrShadow) (index i : ℕ) → find_shadow_msr s index ≡ some i → (s.table i).index ≡ index
index_of_found s index i e =
    let h : Finds s.table index 0 s.count (some i) = rw e at (find_shadow_msr-Finds s index) in
    ground (arith, h.2)

module _ (hw : ℕ → ℕ) (s : MsrShadow) (index value : ℕ) where
  -- A write to an index that is not shadowed goes to the processor and leaves the table alone.
  abbrev pub Through : Type 0
  Through =
      (is_pass_through s index ≡ true)
      × (write s index value ≡ (success, record s { writes = (index, value) ∷ s.writes }))

  -- A write to a read-only entry is denied with nothing changed.
  abbrev pub Denied : ℕ → Type 0
  Denied i = ((s.table i).is_read_only ≡ true) × (write s index value ≡ (access_denied, s))

  -- The value is stored and read back, other indices read as before, and the write reaches the
  -- processor exactly if the entry says so.
  abbrev pub Stored : ℕ → Type 0
  Stored i =
      (t : MsrShadow) × ((s.table i).is_read_only ≡ false)
      × (write s index value ≡ (success, t))
      × (read hw t index ≡ (success, value))
      × ((j : ℕ) → j ≢ index → read hw t j ≡ read hw s j)
      × (t.writes
          ≡ (if (s.table i).passthrough_on_write then (index, value) ∷ s.writes else s.writes))

  stored : (i : ℕ) → find_shadow_msr s index ≡ some i → (s.table i).is_read_only ≡ false → Stored i
  unfolding write read
  stored i e h =
      let t = record s {
        table = update s.table i (record (s.table i) { value = value });
        writes = if (s.table i).passthrough_on_write then (index, value) ∷ s.writes else s.writes;
      } in
      let same = λ (j : ℕ). find_from-store s.table i value s.count 0 j in
      (
        t,
        h,
        rw e (rw h),
        rw (same index, e) (ground arith),
        λ j ne. rw (same j) (others j ne (find_shadow_msr s j) refl),
        refl,
      )
    where
      others :
          (j : ℕ)
          → j ≢ index
          → (o : Option ℕ) → find_shadow_msr s j ≡ o
          → ◌≡◌ {A = EfiStatus × ℕ}
              (
                success,
                read_at hw
                    (record s {
                      table = update s.table i (record (s.table i) { value = value });
                      writes =
                          if (s.table i).passthrough_on_write
                          then (index, value) ∷ s.writes
                          else s.writes;
                    })
                    j
                    o,
              )
              (success, read_at hw s j o)
      others j ne none q = refl
      others j ne (some k) q = ground (arith, index_of_found s index i e, index_of_found s j k q)

  -- MsrShadowWrite of an index that is not shadowed goes to the processor and leaves the table alone; of
  -- a read-only entry it is denied with nothing changed; otherwise it succeeds, the value is read back,
  -- all other indices read as before, and the write reaches the processor exactly if the entry says so.
  pub write_lem : Through ⊎ ((i : ℕ) × (find_shadow_msr s index ≡ some i) × (Denied i ⊎ Stored i))
  unfolding write is_pass_through
  write_lem = elim (Option-cases (find_shadow_msr s index)) [
    | inl e ↦ inl (ground arith, rw e)
    | inr (i, e) ↦ elim (Bool-cases (s.table i).is_read_only) [
      | inl h ↦ inr (i, e, inl (h, rw e (rw h)))
      | inr h ↦ inr (i, e, inr (stored i e h))
    ]
  ]
