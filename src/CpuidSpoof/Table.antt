-- ===== src/CpuidSpoof/Table.antt =====
-- The table of overrides: its bound, and searches in it.
use bemi_bios.Prelude.{
  ℕ, ◌+◌, ◌≤◌, ◌≡◌, inl, inr, refl, sym, ap, ◌∙◌, true, ◌&&◌, List, [], ◌∷◌, ◌++◌, none, some, ltb,
  ltb→lt, ◌==◌, arith, Bool-cases, length, length-append,
}
use bemi_bios.VmxExit.{Registers}
use bemi_bios.CpuidSpoof.{Override, max_overrides, add_override, add_rows, find_override}

append_nil : (xs : List Override) → xs ++ [] ≡ xs
append_nil [] = refl
append_nil (x ∷ xs) = ap (λ ys. x ∷ ys) (append_nil xs)

append_cons : (xs ys : List Override) (y : Override) → (xs ++ (y ∷ [])) ++ ys ≡ xs ++ (y ∷ ys)
append_cons [] ys y = refl
append_cons (x ∷ xs) ys y = ap (λ zs. x ∷ zs) (append_cons xs ys y)

add_override-bound :
    (table : List Override) (row : Override)
    → length table ≤ max_overrides
    → length (add_override table row) ≤ max_overrides
unfolding add_override
add_override-bound table row h = elim (Bool-cases (ltb (length table) max_overrides)) [
  | inl e ↦
      let grown = length-append table (row ∷ []) in
      let room = ltb→lt _ _ e in rw (add_override, e) (omega (arith, grown, room))
  | inr e ↦ rw (add_override, e) h
]

pub add_rows-bound :
    (rows table : List Override)
    → length table ≤ max_overrides
    → length (add_rows table rows) ≤ max_overrides
unfolding add_rows
add_rows-bound [] table h = h
add_rows-bound (row ∷ rows) table h =
    add_rows-bound rows (add_override table row) (add_override-bound table row h)

-- While there is room the rows are appended.
pub add_rows-append :
    (rows table : List Override)
    → length table + length rows ≤ max_overrides
    → add_rows table rows ≡ table ++ rows
unfolding add_rows add_override
add_rows-append [] table h = sym (append_nil table)
add_rows-append (row ∷ rows) table h =
    let room : ltb (length table) max_overrides ≡ true = ground arith in
    let grown = length-append table (row ∷ []) in
    rw (room) (
      add_rows-append rows (table ++ (row ∷ [])) (omega (arith, grown))
      ∙ append_cons table rows row)

-- What is found in a table is found there after every addition.
pub find-append :
    (xs ys : List Override) (leaf subleaf : ℕ) (answer : Registers)
    → find_override xs leaf subleaf ≡ some answer
    → find_override (xs ++ ys) leaf subleaf ≡ some answer
unfolding find_override
find-append [] ys leaf subleaf answer h = ground arith
find-append (x ∷ xs) ys leaf subleaf answer h =
    elim (Bool-cases (x.leaf == leaf && x.subleaf == subleaf)) [
      | inl e ↦ ground arith
      | inr e ↦ rw e (find-append xs ys leaf subleaf answer (ground arith))
    ]

pub find-append_none :
    (xs ys : List Override) (leaf subleaf : ℕ)
    → find_override xs leaf subleaf ≡ none
    → find_override (xs ++ ys) leaf subleaf ≡ find_override ys leaf subleaf
unfolding find_override
find-append_none [] ys leaf subleaf h = refl
find-append_none (x ∷ xs) ys leaf subleaf h =
    elim (Bool-cases (x.leaf == leaf && x.subleaf == subleaf)) [
      | inl e ↦ absurd (ground arith)
      | inr e ↦ rw e (find-append_none xs ys leaf subleaf (ground arith))
    ]

pub find-add_rows :
    (rows table : List Override) (leaf subleaf : ℕ) (answer : Registers)
    → find_override table leaf subleaf ≡ some answer
    → find_override (add_rows table rows) leaf subleaf ≡ some answer
unfolding add_rows add_override
find-add_rows [] table leaf subleaf answer h = h
find-add_rows (row ∷ rows) table leaf subleaf answer h =
    find-add_rows rows (add_override table row) leaf subleaf answer
      (elim (Bool-cases (ltb (length table) max_overrides)) [
        | inl e ↦ rw e (find-append table (row ∷ []) leaf subleaf answer h)
        | inr e ↦ rw e h
      ])

-- What is neither in a table nor in some rows is not in the table after their addition.
pub find-add_rows-none :
    (rows table : List Override) (leaf subleaf : ℕ)
    → find_override table leaf subleaf ≡ none
    → find_override rows leaf subleaf ≡ none
    → find_override (add_rows table rows) leaf subleaf ≡ none
unfolding add_rows add_override find_override
find-add_rows-none [] table leaf subleaf h g = h
find-add_rows-none (row ∷ rows) table leaf subleaf h g =
    let alone : find_override (row ∷ []) leaf subleaf ≡ none = ground arith in
    find-add_rows-none rows (add_override table row) leaf subleaf
      (elim (Bool-cases (ltb (length table) max_overrides)) [
        | inl e ↦ rw e (find-append_none table (row ∷ []) leaf subleaf h ∙ alone)
        | inr e ↦ rw e h
      ])
      (ground arith)
