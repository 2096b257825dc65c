-- ===== src/Prelude/Arrays.antt =====
-- C arrays as functions of the index. That an index is in range is a theorem, not part of a type.
use Prim.Native.Nat.{ℕ}
use bemi_bios.Prelude.Tests.{◌==◌, if◌then◌else◌}

abbrev pub Array {ℓ} : Type ℓ → Type ℓ
Array A = ℕ → A

-- a[i] = v
abbrev pub update {ℓ} : {A : Type ℓ} → Array A → ℕ → A → Array A
update a i v j = if j == i then v else a j
