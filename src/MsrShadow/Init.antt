-- ===== src/MsrShadow/Init.antt =====
-- MsrShadowInit: the table that it builds, for every processor.
use bemi_bios.Prelude.{
  ℕ, zero, suc, ◌+◌, ◌*◌, ◌≤◌, ◌<◌, ◌≡◌, inl, inr, refl, ap, ◌∙◌, ==_iff, Bool, true, false, ◌||◌,
  Option, none, some, arith, ◌==◌, if◌then◌else◌, Bool-cases, List, [], ◌∷◌,
}
use bemi_bios.Efi.{success, access_denied}
use bemi_bios.MsrShadow.{
  MsrShadow, Row, fixed_rows, msr_tsc, msr_mcg_cap, msr_mtrr_cap, find_from, find_shadow_msr,
  add_shadow_msr, add_rows, add_mtrrs, mtrr_rounds, init, read, read_at, write,
}
use bemi_bios.MsrShadow.Access.{index_of_found}
use bemi_bios.MsrShadow.Find.{Finds, find_shadow_msr-Finds, find_of_Finds}

-- What a later state of the table keeps of an earlier one.
record Extends (s t : MsrShadow) : Type 0 where
  grows : s.count ≤ t.count
  keeps : (i : ℕ) → i < s.count → t.table i ≡ s.table i

add_shadow_msr-Extends :
    (s : MsrShadow) (index value : ℕ) (ro pass : Bool)
    → Extends s (add_shadow_msr s index value ro pass)
unfolding add_shadow_msr
add_shadow_msr-Extends s index value ro pass = record {
  grows = ground arith;
  keeps = λ i h. ground arith;
}

Extends-trans : (s t u : MsrShadow) → Extends s t → Extends t u → Extends s u
Extends-trans s t u h k = record {
  grows = omega (arith, h.grows, k.grows);
  keeps = λ i lt. ground (arith, h.keeps i, k.keeps i, h.grows);
}

add_mtrrs-Extends :
    (hw : ℕ → ℕ) (rounds i : ℕ) (s : MsrShadow) → Extends s (add_mtrrs hw rounds i s)
unfolding add_mtrrs
add_mtrrs-Extends hw zero i s = record { grows = omega arith; keeps = λ i h. refl }
add_mtrrs-Extends hw (suc rounds) i s =
    let base = 0x200 + i * 2 in
    let mask = 0x201 + i * 2 in
    let one = add_shadow_msr s base (hw base) false true in
    let two = add_shadow_msr one mask (hw mask) false true in
    Extends-trans s two _
      (Extends-trans s one two (add_shadow_msr-Extends s base (hw base) false true)
        (add_shadow_msr-Extends one mask (hw mask) false true))
      (add_mtrrs-Extends hw rounds (i + 1) two)

-- An entry that was found is found again at the same place.
find-Extends :
    (s t : MsrShadow) (index p : ℕ)
    → Extends s t
    → find_shadow_msr s index ≡ some p
    → (find_shadow_msr t index ≡ some p) × (t.table p ≡ s.table p)
find-Extends s t index p h e =
    let f : Finds s.table index 0 s.count (some p) = rw e at (find_shadow_msr-Finds s index) in
    (
      find_of_Finds t index (some p) (
        omega arith,
        omega (arith, f.1, h.grows),
        ground (arith, f.2, h.keeps p),
        λ k lo hi. ground (arith, f.3 k, h.keeps k),
      ),
      h.keeps p f.1,
    )

-- The registers whose shadow starts at zero: the time stamp counter, its adjustment and the
-- machine-check status.
abbrev pub starts_zero : ℕ → Bool
starts_zero index = index == msr_tsc || (index == 0x3B || index == 0x17A)

-- A row says rightly whether its register starts at zero.
abbrev Sound : List Row → Type 0
Sound [] = Unit {0}
Sound ((index, zeroed, ro, pass) ∷ rows) = (zeroed ≡ starts_zero index) × Sound rows

rows-Sound : Sound fixed_rows
rows-Sound = ground arith

module _ (hw : ℕ → ℕ) (s : MsrShadow) where
  fixed : MsrShadow
  fixed = add_rows hw (record s { count = 0 }) fixed_rows

  init-Extends : Extends fixed (init hw s)
  unfolding init fixed
  init-Extends = add_mtrrs-Extends hw (mtrr_rounds hw) 0 fixed

  found_fixed :
      (index p : ℕ)
      → find_shadow_msr fixed index ≡ some p
      → (find_shadow_msr (init hw s) index ≡ some p) × ((init hw s).table p ≡ fixed.table p)
  found_fixed index p e = find-Extends fixed (init hw s) index p init-Extends e

  denied_at :
      (index value p : ℕ)
      → find_shadow_msr fixed index ≡ some p
      → (fixed.table p).is_read_only ≡ true
      → write (init hw s) index value ≡ (access_denied, init hw s)
  unfolding write
  denied_at index value p e h =
      let (found, kept) = found_fixed index p e in
      let locked : ((init hw s).table p).is_read_only ≡ true = rw kept h in rw found (rw locked)

  -- After MsrShadowInit the two capability registers cannot be written, whatever the processor
  -- holds and whatever the table held before.
  pub init-read_only :
      (value : ℕ)
      → (write (init hw s) msr_mcg_cap value ≡ (access_denied, init hw s))
        × (write (init hw s) msr_mtrr_cap value ≡ (access_denied, init hw s))
  init-read_only value = (
    denied_at msr_mcg_cap value 14 (unfold fixed find_from add_rows in refl)
        (unfold fixed add_rows in refl),
    denied_at msr_mtrr_cap value 19 (unfold fixed find_from add_rows in refl)
        (unfold fixed add_rows in refl),
  )

  expected : ℕ → ℕ
  expected index = if starts_zero index then 0 else hw index

  expected_of :
      (index : ℕ) (zeroed : Bool)
      → zeroed ≡ starts_zero index
      → (if zeroed then 0 else hw index) ≡ expected index
  unfolding expected
  expected_of index zeroed e = rw e

  abbrev Coherent : MsrShadow → Type 0
  Coherent t = (i : ℕ) → i < t.count → (t.table i).value ≡ expected (t.table i).index

  add-Coherent :
      (t : MsrShadow) (index value : ℕ) (ro pass : Bool)
      → value ≡ expected index
      → Coherent t
      → Coherent (add_shadow_msr t index value ro pass)
  unfolding add_shadow_msr
  add-Coherent t index value ro pass e c i h = ground (arith, c i)

  add_rows-Coherent :
      (rows : List Row) (t : MsrShadow) → Sound rows → Coherent t → Coherent (add_rows hw t rows)
  unfolding add_rows
  add_rows-Coherent [] t sound c = c
  add_rows-Coherent ((index, zeroed, ro, pass) ∷ rows) t sound c =
      add_rows-Coherent rows (add_shadow_msr t index (if zeroed then 0 else hw index) ro pass)
        sound.1 (add-Coherent t index _ ro pass (expected_of index zeroed sound.0) c)

  add_mtrrs-Coherent :
      (rounds i : ℕ) (t : MsrShadow) → Coherent t → Coherent (add_mtrrs hw rounds i t)
  unfolding add_mtrrs
  add_mtrrs-Coherent zero i t c = c
  add_mtrrs-Coherent (suc rounds) i t c =
      let base = 0x200 + i * 2 in
      let mask = 0x201 + i * 2 in
      let one = add-Coherent t base (hw base) false true (unfold expected in ground arith) c in
      add_mtrrs-Coherent rounds (i + 1) _
        (add-Coherent _ mask (hw mask) false true (unfold expected in ground arith) one)

  init-Coherent : Coherent (init hw s)
  unfolding init
  init-Coherent =
      add_mtrrs-Coherent (mtrr_rounds hw) 0 _
        (add_rows-Coherent fixed_rows (record s { count = 0 }) rows-Sound (λ i h. elim h [ ]))

  value_at :
      (index : ℕ) (o : Option ℕ)
      → find_shadow_msr (init hw s) index ≡ o
      → (starts_zero index ≡ true → (p : ℕ) × (o ≡ some p))
      → read_at hw (init hw s) index o ≡ expected index
  value_at index none e z = unfold expected in ground (arith, z)
  value_at index (some p) e z =
      let f : Finds (init hw s).table index 0 (init hw s).count (some p) =
        rw e at (find_shadow_msr-Finds (init hw s) index) in
      init-Coherent p f.1 ∙ ap expected (index_of_found (init hw s) index p e)

  zero_found :
      (index : ℕ)
      → starts_zero index ≡ true
      → (p : ℕ) × (find_shadow_msr (init hw s) index ≡ some p)
  zero_found index h = elim (Bool-cases (index == msr_tsc)) [
    | inl e ↦ (
      0,
      rw ((==_iff index msr_tsc).0 e)
          (found_fixed msr_tsc 0 (unfold fixed find_from add_rows in refl)).0,
    )
    | inr n ↦ elim (Bool-cases (index == 0x3B)) [
      | inl e ↦ (
        1,
        rw ((==_iff index 0x3B).0 e)
            (found_fixed 0x3B 1 (unfold fixed find_from add_rows in refl)).0,
      )
      | inr m ↦
          let e : index ≡ 0x17A = ground arith in
          (15, rw e (found_fixed 0x17A 15 (unfold fixed find_from add_rows in refl)).0)
    ]
  ]

  -- After MsrShadowInit every register reads as the processor's own, except the three that start
  -- at zero, whatever the table held before.
  pub init-read :
      (index : ℕ) → read hw (init hw s) index ≡ (success, if starts_zero index then 0 else hw index)
  unfolding read
  init-read index =
      let z = λ (h : starts_zero index ≡ true). zero_found index h in
      let v = value_at index (find_shadow_msr (init hw s) index) refl z in
      rw v (unfold expected in refl)
