-- ===== src/VmxSetup/Rows.antt =====
-- What the calls of VmxSetupVmcs do to the current VMCS.
use bemi_bios.Prelude.{
  ℕ, ◌≡◌, refl, ◌∙◌, Bool, false, ◌||◌, List, [], ◌∷◌, ◌==◌, Array, arith, Bool-cases, inl, inr,
}
use bemi_bios.VmxSetup.{write_rows, vm_write, replay}

-- Whether a row of the list has a number as its value.
abbrev pub has_value : List (ℕ × ℕ) → ℕ → Bool
has_value [] number = false
has_value ((f, v) ∷ rows) number = v == number || has_value rows number

-- A call changes at most the field whose encoding is its value.
vm_write-other :
    (has_field : ℕ → Bool) (vmcs : Array ℕ) (f v field : ℕ)
    → (v == field) ≡ false
    → vm_write has_field vmcs f v field ≡ vmcs field
unfolding vm_write
vm_write-other has_field vmcs f v field ne = elim (Bool-cases (has_field v)) [
  | inl e ↦ rw (vm_write, e) (ground arith)
  | inr e ↦ rw (vm_write, e) refl
]

-- A field whose encoding is no value of the calls keeps what it has.
pub replay-other :
    (has_field : ℕ → Bool) (rows writes : List (ℕ × ℕ)) (vmcs : Array ℕ) (field : ℕ)
    → has_value rows field ≡ false
    → replay has_field (write_rows rows writes) vmcs field ≡ replay has_field writes vmcs field
unfolding write_rows replay
replay-other has_field [] writes vmcs field h = refl
replay-other has_field ((f, v) ∷ rows) writes vmcs field h =
    replay-other has_field rows ((f, v) ∷ writes) vmcs field (ground arith)
    ∙ vm_write-other has_field (replay has_field writes vmcs) f v field (ground arith)
