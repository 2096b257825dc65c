-- ===== src/Legacy/Boot.antt =====
-- The scan for a boot sector finds the first disk that has one.
use bemi_bios.Prelude.{
  ℕ, ◌+◌, ◌≡◌, refl, ap, sym, subst, ◌⊎◌, inl, inr, Bool, true, false, ◌&&◌, ◌||◌, not, List, [],
  ◌∷◌, ◌++◌, Option, none, some, ◌==◌, if◌then◌else◌, length, arith, Bool-cases,
}
use bemi_bios.Efi.{EfiStatus, success, out_of_resources, not_found, is_error}
use bemi_bios.Legacy.{Disk, is_skipped, has_boot_sector, scan_disks, scan_and_load}

-- A disk that can be opened and is no logical partition, and one whose sector can be read and has the
-- signature of a boot sector.
abbrev pub is_physical : Disk → Bool
is_physical disk = not (is_error disk.protocol_status) && not disk.is_partition

abbrev pub is_bootable : Disk → Bool
is_bootable disk = not (is_error disk.read_status) && (disk.boot_signature == 0xAA55)

-- A disk that the scan passes by, and one that it takes.
abbrev pub passed_by : Disk → Bool
passed_by disk = not (is_physical disk) || (disk.sector_pool && not (is_bootable disk))

abbrev pub taken : Disk → Bool
taken disk = is_physical disk && (disk.sector_pool && is_bootable disk)

abbrev pub all_passed_by : List Disk → Bool
all_passed_by [] = true
all_passed_by (disk ∷ disks) = passed_by disk && all_passed_by disks

-- Disk i, counted from some first number, is taken, and all before it are passed by.
unfoldable pub IsFirst : ℕ → List Disk → ℕ → Type 0
IsFirst first disks i =
    (before : List Disk) × (disk : Disk) × (after : List Disk) × (disks ≡ before ++ (disk ∷ after))
    × (all_passed_by before ≡ true)
    × (taken disk ≡ true)
    × (i ≡ first + length before)

-- The scan comes to a disk that it would read and has no buffer for it.
unfoldable pub IsExhausted : List Disk → Type 0
IsExhausted disks =
    (before : List Disk) × (disk : Disk) × (after : List Disk) × (disks ≡ before ++ (disk ∷ after))
    × (all_passed_by before ≡ true)
    × (is_physical disk ≡ true)
    × (disk.sector_pool ≡ false)

-- What a scan may return.
unfoldable pub Scanned : ℕ → List Disk → EfiStatus × Option ℕ → Type 0
Scanned first disks (status, some i) = (status ≡ success) × IsFirst first disks i
Scanned first disks (status, none) =
    ((status ≡ not_found) × (all_passed_by disks ≡ true))
    ⊎ ((status ≡ out_of_resources) × IsExhausted disks)

Scanned-cons :
    (first : ℕ) (disk : Disk) (disks : List Disk) (r : EfiStatus × Option ℕ)
    → passed_by disk ≡ true
    → Scanned (first + 1) disks r
    → Scanned first (disk ∷ disks) r
unfolding Scanned IsFirst IsExhausted
Scanned-cons first disk disks (status, some i) p (ok, (before, d, after, whole, all, take, index)) =
    (
      ok,
      (
        disk ∷ before,
        d,
        after,
        ap (λ ds. disk ∷ ds) whole,
        ground arith,
        take,
        omega (arith, index),
      ),
    )
Scanned-cons first disk disks (status, none) p (inl (s, all)) = inl (s, ground arith)
Scanned-cons first disk disks (status, none) p
      (inr (s, (before, d, after, whole, all, physical, no_pool))) =
    inr (s, (disk ∷ before, d, after, ap (λ ds. disk ∷ ds) whole, ground arith, physical, no_pool))

scan_disks-Scanned : (first : ℕ) (disks : List Disk) → Scanned first disks (scan_disks first disks)
unfolding scan_disks Scanned IsFirst IsExhausted
scan_disks-Scanned first [] = inl (refl, refl)
scan_disks-Scanned first (disk ∷ disks) =
    let rest = scan_disks-Scanned (first + 1) disks in
    let result = scan_disks (first + 1) disks in
    elim (Bool-cases (is_skipped disk)) [
      | inl e ↦
          let passed : passed_by disk ≡ true = ground arith in
          rw (scan_disks, e) (Scanned-cons first disk disks result passed rest)
      | inr e ↦
          rw (scan_disks, e)
            (elim (Bool-cases disk.sector_pool) [
              | inr m ↦
                  subst (λ x. Scanned first (disk ∷ disks) (outcome x (has_boot_sector disk)))
                    (sym m) (inr (refl, ([], disk, disks, refl, refl, ground arith, m)))
              | inl m ↦
                  subst (λ x. Scanned first (disk ∷ disks) (outcome x (has_boot_sector disk)))
                    (sym m)
                    (elim (Bool-cases (has_boot_sector disk)) [
                      | inl b ↦
                          rw b (refl, ([], disk, disks, refl, refl, ground arith, omega arith))
                      | inr b ↦
                          let passed : passed_by disk ≡ true = ground arith in
                          rw b (Scanned-cons first disk disks result passed rest)
                    ])
            ])
    ]
  where
    outcome : Bool → Bool → EfiStatus × Option ℕ
    outcome pool boots =
        if not pool
        then (out_of_resources, none)
        else if boots
        then (success, some first)
        else scan_disks (first + 1) disks

-- With block devices, the scan loads the boot sector of the first disk that has one and is no
-- partition and can be opened, with its number; without such a disk it reports that none is found. It
-- runs out of resources only where it comes, before such a disk, to one that it would read and that it
-- gets no buffer for.
pub scan_and_load-Scanned :
    (located : EfiStatus) (disk : Disk) (disks : List Disk)
    → is_error located ≡ false
    → Scanned 0 (disk ∷ disks) (scan_and_load located (disk ∷ disks))
unfolding scan_and_load
scan_and_load-Scanned located disk disks ok =
    let some_disks : (length (disk ∷ disks) == 0) ≡ false = ground arith in
    rw (scan_and_load, ok, some_disks) (scan_disks-Scanned 0 (disk ∷ disks))
