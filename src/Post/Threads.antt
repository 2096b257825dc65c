-- ===== src/Post/Threads.antt =====
-- The number of threads, and the memory test.
use bemi_bios.Prelude.{
  ℕ, zero, suc, ◌*◌, ◌/◌, ◌%◌, ◌^◌, ◌≤◌, ◌<◌, ◌≡◌, ◌↔◌, ◌∙◌, ◌⊎◌, inl, inr, refl, ap, sym, true,
  false, some, leb, ◌==◌, if◌then◌else◌, Array, arith, Bool-cases, ==_iff,
}
use bemi_bios.Efi.{success, device_error}
use bemi_bios.CpuidSpoof.{Source}
use bemi_bios.Post.{
  read_topology, detect_topology, calculate_thread_count, test_pattern, write_words, words_match,
  self_test,
}

-- The number of threads is from 1 to 84 and, for fewer than 2^62 processors, at least two for each
-- processor, or 84 where that is less.
pub calculate_thread_count_lem :
    (count caches : ℕ)
    → count < 2 ^ 62
    → let threads = calculate_thread_count count caches in
      (1 ≤ threads) × (threads ≤ 84) × ((if leb count 42 then 2 * count else 84) ≤ threads)
unfolding calculate_thread_count
calculate_thread_count_lem count caches h = (ground arith, ground arith, ground arith)

-- On a processor whose highest leaf is from 1 to 10, the number of processors that PostDetectTopology
-- returns is the square of the number of logical processors that leaf 1 gives.
pub detect_topology-squares :
    (p : Source)
    → 1 ≤ (p.cpuid 0).eax
    → (p.cpuid 0).eax < 0xB
    → let n = (p.cpuid 1).ebx / 2 ^ 16 % 2 ^ 8 in (detect_topology p).0 ≡ n * n
unfolding detect_topology read_topology
detect_topology-squares p low high =
    let old : leb 0xB (p.cpuid 0).eax ≡ false = ground arith in
    let has : leb 1 (p.cpuid 0).eax ≡ true = ground arith in
    rw (detect_topology, read_topology, old, has) refl

write_words-reads : (n k : ℕ) (memory : Array ℕ) → k < n → write_words n memory k ≡ test_pattern
unfolding write_words
write_words-reads zero k memory h = absurd (omega arith)
write_words-reads (suc n) k memory h = elim (Bool-cases (k == n)) [
  | inl e ↦ rw e refl
  | inr e ↦ rw e (write_words-reads n k memory (ground arith))
]

words_match_iff :
    (n : ℕ) (memory : Array ℕ)
    → (words_match n memory ≡ true) ↔ ((k : ℕ) → k < n → memory k ≡ test_pattern)
unfolding words_match
words_match_iff zero memory = (λ h k lt. absurd (omega arith), λ h. refl)
words_match_iff (suc n) memory =
    let (to, from) = words_match_iff n memory in
    elim (Bool-cases (memory n == test_pattern)) [
      | inl e ↦ (
        λ h k lt. elim (Bool-cases (k == n)) [
          | inl i ↦ ap memory ((==_iff _ _).0 i) ∙ (==_iff _ _).0 e
          | inr i ↦ to (ground arith) k (ground arith)
        ],
        λ h. rw e (from (λ k lt. h k (omega arith))),
      )
      | inr e ↦ (λ h. absurd (ground arith), λ h. absurd (ground (arith, h n (omega arith))))
    ]

-- With a buffer, the memory test succeeds just when each of its 256 words reads as what was written
-- to it, whatever the memory was and does to them; and if one does not, it returns a device error.
pub self_test_lem :
    (memory : Array ℕ) (faults : Array ℕ → Array ℕ)
    → let status = self_test (some memory) faults in
      let written = write_words 256 memory in
      ((status ≡ success) ↔ ((k : ℕ) → k < 256 → faults written k ≡ written k))
      × ((status ≡ success) ⊎ (status ≡ device_error))
unfolding self_test
self_test_lem memory faults =
    let written = write_words 256 memory in
    let seen = faults written in
    let (to, from) = words_match_iff 256 seen in
    elim (Bool-cases (words_match 256 seen)) [
      | inl e ↦
          let ok : self_test (some memory) faults ≡ success = rw (self_test, e) refl in
          rw ok
            ((λ h k lt. to e k lt ∙ sym (write_words-reads 256 k memory lt), λ h. refl), inl refl)
      | inr e ↦
          let bad : self_test (some memory) faults ≡ device_error = rw (self_test, e) refl in
          rw bad (
            (
              λ h. absurd (ground arith),
              λ h.
                  let all = from (λ k lt. h k lt ∙ write_words-reads 256 k memory lt) in
                  absurd (ground (arith, all)),
            ),
            inr refl,
          )
    ]
