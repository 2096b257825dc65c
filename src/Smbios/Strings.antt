-- ===== src/Smbios/Strings.antt =====
-- The blocks of strings: every string stands whole in its place, and the block ends in two NULs.
use bemi_bios.Prelude.{
  ℕ, ◌+◌, ◌-◌, ◌<◌, ◌≡◌, ◌∙◌, List, [], ◌∷◌, length, Array, update, arith, lt→ltb,
}
use bemi_bios.Smbios.{ascii_size, write_string, copy_string, two_strings, three_strings}

-- A string and its NUL stand in a block from an offset on.
unfoldable pub HoldsAt : Array ℕ → ℕ → List ℕ → Type 0
HoldsAt block offset [] = block offset ≡ 0
HoldsAt block offset (c ∷ cs) = (block offset ≡ c) × HoldsAt block (offset + 1) cs

write_string-before :
    (block : Array ℕ) (offset : ℕ) (s : List ℕ) (k : ℕ)
    → k < offset
    → write_string block offset s k ≡ block k
unfolding write_string
write_string-before block offset [] k h = ground arith
write_string-before block offset (c ∷ cs) k h =
    write_string-before (update block offset c) (offset + 1) cs k (omega arith) ∙ ground arith

write_string-HoldsAt :
    (block : Array ℕ) (offset : ℕ) (s : List ℕ) → HoldsAt (write_string block offset s) offset s
unfolding write_string HoldsAt
write_string-HoldsAt block offset [] = ground arith
write_string-HoldsAt block offset (c ∷ cs) = (
  write_string-before (update block offset c) (offset + 1) cs offset (omega arith) ∙ ground arith,
  write_string-HoldsAt (update block offset c) (offset + 1) cs,
)

-- Blocks that agree below the end of a string both hold it.
HoldsAt-same :
    (block other : Array ℕ) (offset : ℕ) (s : List ℕ)
    → ((k : ℕ) → k < offset + ascii_size s → other k ≡ block k)
    → HoldsAt block offset s
    → HoldsAt other offset s
unfolding HoldsAt
HoldsAt-same block other offset [] same h = same offset (omega arith) ∙ h
HoldsAt-same block other offset (c ∷ cs) same (here, rest) = (
  same offset (omega arith) ∙ here,
  HoldsAt-same block other (offset + 1) cs (λ k lt. same k (omega arith)) rest,
)

copy_string-HoldsAt :
    (block : Array ℕ) (offset room : ℕ) (s : List ℕ)
    → length s < room
    → HoldsAt (copy_string block offset room s) offset s
unfolding copy_string
copy_string-HoldsAt block offset room s fits =
    rw (copy_string, lt→ltb (length s) room fits) (write_string-HoldsAt block offset s)

copy_string-before :
    (block : Array ℕ) (offset room : ℕ) (s : List ℕ) (k : ℕ)
    → length s < room
    → k < offset
    → copy_string block offset room s k ≡ block k
unfolding copy_string
copy_string-before block offset room s k fits h =
    rw (copy_string, lt→ltb (length s) room fits) (write_string-before block offset s k h)

update-before : (block : Array ℕ) (offset k : ℕ) → k < offset → update block offset 0 k ≡ block k
update-before block offset k h = ground arith

-- Two strings that fit into the block of 64 bytes with their NULs and one more each stand whole in it,
-- the second right behind the first, and a second NUL is behind them.
pub two_strings-HoldsAt :
    (s1 s2 : List ℕ)
    → ascii_size s1 + ascii_size s2 < 64
    → let block = two_strings s1 s2 in
      HoldsAt block 0 s1
      × HoldsAt block (ascii_size s1) s2
      × (block (ascii_size s1 + ascii_size s2) ≡ 0)
unfolding two_strings
two_strings-HoldsAt s1 s2 fits =
    let zeros : Array ℕ = λ k. 0 in
    let n1 = ascii_size s1 in
    let n2 = ascii_size s2 in
    let first = copy_string zeros 0 64 s1 in
    let second = copy_string first n1 (64 - n1) s2 in
    let block = two_strings s1 s2 in
    let at1 : HoldsAt first 0 s1 = copy_string-HoldsAt zeros 0 64 s1 (omega arith) in
    let at2 : HoldsAt second n1 s2 = copy_string-HoldsAt first n1 (64 - n1) s2 (omega arith) in
    (
      HoldsAt-same first block 0 s1
          (λ k lt.
            update-before second (n1 + n2) k (omega arith)
            ∙ copy_string-before first n1 (64 - n1) s2 k (omega arith) (omega arith))
          at1,
      HoldsAt-same second block n1 s2 (λ k lt. update-before second (n1 + n2) k (omega arith)) at2,
      ground arith,
    )

-- Three strings that fit into the block of 64 bytes with their NULs and one more each stand whole in
-- it, each right behind the one before, and a second NUL is behind them.
pub three_strings-HoldsAt :
    (s1 s2 s3 : List ℕ)
    → ascii_size s1 + ascii_size s2 + ascii_size s3 < 64
    → let block = three_strings s1 s2 s3 in
      HoldsAt block 0 s1
      × HoldsAt block (ascii_size s1) s2
      × HoldsAt block (ascii_size s1 + ascii_size s2) s3
      × (block (ascii_size s1 + ascii_size s2 + ascii_size s3) ≡ 0)
unfolding three_strings
three_strings-HoldsAt s1 s2 s3 fits =
    let zeros : Array ℕ = λ k. 0 in
    let n1 = ascii_size s1 in
    let n2 = ascii_size s2 in
    let n3 = ascii_size s3 in
    let first = copy_string zeros 0 64 s1 in
    let second = copy_string first n1 (64 - n1) s2 in
    let third = copy_string second (n1 + n2) (64 - n1 - n2) s3 in
    let block = three_strings s1 s2 s3 in
    let end = λ (k : ℕ) (lt : k < n1 + n2 + n3). update-before third (n1 + n2 + n3) k lt in
    let by3 = λ (k : ℕ) (lt : k < n1 + n2).
      copy_string-before second (n1 + n2) (64 - n1 - n2) s3 k (omega arith) lt in
    let by2 =
      λ (k : ℕ) (lt : k < n1). copy_string-before first n1 (64 - n1) s2 k (omega arith) lt in
    let at1 : HoldsAt first 0 s1 = copy_string-HoldsAt zeros 0 64 s1 (omega arith) in
    let at2 : HoldsAt second n1 s2 = copy_string-HoldsAt first n1 (64 - n1) s2 (omega arith) in
    let at3 : HoldsAt third (n1 + n2) s3 =
      copy_string-HoldsAt second (n1 + n2) (64 - n1 - n2) s3 (omega arith) in
    (
      HoldsAt-same first block 0 s1
          (λ k lt. end k (omega arith) ∙ by3 k (omega arith) ∙ by2 k (omega arith)) at1,
      HoldsAt-same second block n1 s2 (λ k lt. end k (omega arith) ∙ by3 k (omega arith)) at2,
      HoldsAt-same third block (n1 + n2) s3 (λ k lt. end k (omega arith)) at3,
      ground arith,
    )
