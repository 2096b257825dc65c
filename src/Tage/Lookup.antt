-- ===== src/Tage/Lookup.antt =====
-- The search over the tables: what it returns, and when.
use bemi_bios.Prelude.{
  ℕ, zero, suc, ◌+◌, ◌≤◌, ◌<◌, ◌≡◌, ◌≢◌, inl, inr, refl, true, false, ◌||◌, not, none, some, ◌==◌,
  arith, Bool-cases,
}
use bemi_bios.Tage.{
  tage_table_count, Tage, TageEntry, tage_tag, entry_of, set_entry, table_hits, find_table,
  find_victim,
}

-- Table t hits, and no table between t and n does.
abbrev pub HighestHit : Tage → ℕ → ℕ → ℕ → Type 0
HighestHit s rip n t =
    (t < n) × (table_hits s rip t ≡ true) × ((u : ℕ) → t < u → u < n → table_hits s rip u ≡ false)

pub find_table-HighestHit :
    (s : Tage) (rip n t : ℕ) → find_table s rip n ≡ some t → HighestHit s rip n t
unfolding find_table
find_table-HighestHit s rip zero t h = absurd (ground arith)
find_table-HighestHit s rip (suc n) t h = elim (Bool-cases (table_hits s rip n)) [
  | inl e ↦
      let same : n ≡ t = ground (arith, e) in
      (omega (arith, same), ground (arith, same), λ u lo hi. absurd (omega (arith, same)))
  | inr e ↦
      let (lt, hit, above) = find_table-HighestHit s rip n t (ground (arith, e)) in
      (omega (arith, lt), hit, λ u lo hi. ground (arith, above u))
]

pub find_table-misses :
    (s : Tage) (rip n : ℕ)
    → find_table s rip n ≡ none
    → (u : ℕ) → u < n
    → table_hits s rip u ≡ false
unfolding find_table
find_table-misses s rip zero h u lt = absurd (omega arith)
find_table-misses s rip (suc n) h u lt = elim (Bool-cases (table_hits s rip n)) [
  | inl e ↦ absurd (ground (arith, e))
  | inr e ↦ ground (arith, find_table-misses s rip n (ground (arith, e)) u)
]

pub find_table-of_HighestHit :
    (s : Tage) (rip n t : ℕ) → HighestHit s rip n t → find_table s rip n ≡ some t
unfolding find_table
find_table-of_HighestHit s rip zero t (lt, _, _) = absurd (omega arith)
find_table-of_HighestHit s rip (suc n) t (lt, hit, above) = elim (Bool-cases (n == t)) [
  | inl e ↦ ground arith
  | inr e ↦
      let rest =
        find_table-of_HighestHit s rip n t
          (ground arith, hit, λ u lo hi. above u lo (omega arith)) in
      let miss = above n (ground arith) (omega arith) in rw (miss, rest) refl
]

-- The tables agree with `s` for this branch everywhere but in table t, where they hold `e`.
abbrev pub Placed : Tage → Tage → ℕ → ℕ → TageEntry → Type 0
Placed s s' rip t e =
    (entry_of s' rip t ≡ e) × ((u : ℕ) → u ≢ t → entry_of s' rip u ≡ entry_of s rip u)

pub set_entry-Placed :
    (s : Tage) (rip t : ℕ) (e : TageEntry) → Placed s (set_entry s rip t e) rip t e
set_entry-Placed s rip t e = (ground arith, λ u ne. ground arith)

-- An entry that matches the branch in table t makes t the highest hit, if no table above t hits.
pub find_table-Placed :
    (s s' : Tage) (rip t : ℕ) (e : TageEntry)
    → Placed s s' rip t e
    → e.valid ≡ true
    → e.tag ≡ tage_tag rip t
    → t < tage_table_count
    → ((u : ℕ) → t < u → u < tage_table_count → table_hits s rip u ≡ false)
    → find_table s' rip tage_table_count ≡ some t
unfolding table_hits
find_table-Placed s s' rip t e (there, others) v same lt above =
    let hit : table_hits s' rip t ≡ true = rw there (ground arith) in
    find_table-of_HighestHit s' rip tage_table_count t
      (lt, hit, λ u lo hi. rw (others u (λ q. omega arith)) (above u lo hi))

pub find_victim-bound :
    (s : Tage) (rip rounds t v : ℕ)
    → find_victim s rip rounds t ≡ some v
    → (t ≤ v) × (v < t + rounds)
unfolding find_victim
find_victim-bound s rip zero t v h = absurd (ground arith)
find_victim-bound s rip (suc rounds) t v h =
    elim (Bool-cases (not (entry_of s rip t).valid || (entry_of s rip t).useful == 0)) [
      | inl e ↦ ground (arith, e)
      | inr e ↦
          let (lo, hi) = find_victim-bound s rip rounds (t + 1) v (ground (arith, e)) in
          (omega arith, omega arith)
    ]
