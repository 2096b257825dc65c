-- ===== src/MsrShadow/Find.antt =====
-- What FindShadowMsr finds, and that AddShadowMsr keeps it.
use bemi_bios.Prelude.{
  ℕ, zero, suc, ◌+◌, ◌≤◌, ◌<◌, ◌≡◌, inl, inr, refl, Bool, true, false, ◌&&◌, Option, none, some,
  Array, arith, ◌==◌, Bool-cases,
}
use bemi_bios.MsrShadow.{MsrShadowEntry, MsrShadow, find_from, find_shadow_msr}

abbrev pub matches : Array MsrShadowEntry → ℕ → ℕ → Bool
matches table index i = (table i).index == index && (table i).is_shadowed

-- The first position in a range that matches, or none does.
abbrev pub Finds : Array MsrShadowEntry → ℕ → ℕ → ℕ → Option ℕ → Type 0
Finds table index i j none = (k : ℕ) → i ≤ k → k < j → matches table index k ≡ false
Finds table index i j (some p) =
    (i ≤ p)
    × (p < j)
    × (matches table index p ≡ true)
    × ((k : ℕ) → i ≤ k → k < p → matches table index k ≡ false)

find_from-Finds :
    (table : Array MsrShadowEntry) (rounds i index : ℕ)
    → Finds table index i (i + rounds) (find_from table rounds i index)
unfolding find_from
find_from-Finds table zero i index = λ k lo hi. absurd (omega arith)
find_from-Finds table (suc rounds) i index = elim (Bool-cases (matches table index i)) [
  | inl e ↦ rw e (omega arith, omega arith, e, λ k lo hi. absurd (omega arith))
  | inr e ↦
      rw e
        (step (find_from table rounds (i + 1) index) (find_from-Finds table rounds (i + 1) index) e)
]
  where
    step :
        (o : Option ℕ)
        → Finds table index (i + 1) (i + 1 + rounds) o
        → matches table index i ≡ false
        → Finds table index i (i + suc rounds) o
    step none h e =
        λ k lo hi. elim (Bool-cases (k == i)) [ inl q ↦ ground arith | inr q ↦ ground (arith, h k) ]
    step (some p) h e = (
      omega (arith, h.0),
      omega (arith, h.1),
      h.2,
      λ k lo hi. elim (Bool-cases (k == i)) [
        | inl q ↦ ground arith
        | inr q ↦ ground (arith, h.3 k)
      ],
    )

-- FindShadowMsr returns the first shadowed entry with the index, or there is none.
pub find_shadow_msr-Finds :
    (s : MsrShadow) (index : ℕ) → Finds s.table index 0 s.count (find_shadow_msr s index)
find_shadow_msr-Finds s index =
    let e : 0 + s.count ≡ s.count = omega arith in rw e at (find_from-Finds s.table s.count 0 index)

-- What is found does not depend on which description of it is used.
Finds-unique :
    (table : Array MsrShadowEntry) (index n : ℕ) (o p : Option ℕ)
    → Finds table index 0 n o
    → Finds table index 0 n p
    → o ≡ p
Finds-unique table index n none none h k = refl
Finds-unique table index n none (some p) h k = absurd (ground (arith, h p))
Finds-unique table index n (some o) none h k = absurd (ground (arith, k o))
Finds-unique table index n (some o) (some p) h k =
    let e : o ≡ p = ground (arith, h.3 p, k.3 o) in rw e

pub find_of_Finds :
    (s : MsrShadow) (index : ℕ) (o : Option ℕ)
    → Finds s.table index 0 s.count o
    → find_shadow_msr s index ≡ o
find_of_Finds s index o h =
    Finds-unique s.table index s.count (find_shadow_msr s index) o (find_shadow_msr-Finds s index) h
