-- ===== src/TraceCache/Chains.antt =====
-- The chains of entries: a loop over one ends, and what a search of it depends on.
use bemi_bios.Prelude.{
  ℕ, zero, suc, ◌≤◌, ◌<◌, ◌≡◌, inl, inr, refl, sym, ap, ◌∙◌, true, false, Option, none, some, List,
  [], ◌∷◌, if◌then◌else◌, Array, arith, Bool-cases,
}
use bemi_bios.TraceCache.{TraceEntry, chain, entry_hits, first_hit}

-- A link that is NULL or leads to a slot below n.
unfoldable pub Below : Option ℕ → ℕ → Type 0
Below none n = Unit {0}
Below (some k) n = k < n

pub Below-mono : (at : Option ℕ) (n m : ℕ) → n ≤ m → Below at n → Below at m
unfolding Below
Below-mono none n m h b = tt
Below-mono (some k) n m h b = omega arith

-- Each of the first n entries links to an earlier slot.
unfoldable pub Descends : Array TraceEntry → ℕ → Type 0
Descends slots n = (k : ℕ) → k < n → Below (slots k).next k

-- More fuel than the slots in use changes no chain.
pub chain-enough :
    (slots : Array TraceEntry) (n f : ℕ) (at : Option ℕ)
    → Descends slots n
    → Below at n
    → n ≤ f
    → chain slots f at ≡ chain slots n at
unfolding chain Below Descends
chain-enough slots zero zero none d b h = refl
chain-enough slots zero (suc f) none d b h = refl
chain-enough slots zero f (some k) d b h = absurd (omega arith)
chain-enough slots (suc n) zero at d b h = absurd (omega arith)
chain-enough slots (suc n) (suc f) none d b h = refl
chain-enough slots (suc n) (suc f) (some k) d b h =
    ap (λ ks. k ∷ ks)
      (chain-enough slots n f (slots k).next (λ j lt. d j (omega arith))
        (Below-mono (slots k).next k n (omega arith) (d k b)) (omega arith))

-- A chain depends on the links only.
pub chain-links :
    (slots slots' : Array TraceEntry) (f : ℕ) (at : Option ℕ)
    → ((k : ℕ) → (slots' k).next ≡ (slots k).next)
    → chain slots' f at ≡ chain slots f at
unfolding chain
chain-links slots slots' zero at h = refl
chain-links slots slots' (suc f) none h = refl
chain-links slots slots' (suc f) (some k) h =
    rw (h k) (ap (λ ks. k ∷ ks) (chain-links slots slots' f (slots k).next h))

-- The search along one chain.
abbrev pub search : Array TraceEntry → ℕ → Option ℕ → ℕ → ℕ → Option ℕ
search slots f at rip context = first_hit slots rip context (chain slots f at)

pub search-cons :
    (slots : Array TraceEntry) (f k rip context : ℕ)
    → search slots (suc f) (some k) rip context ≡ (
        if entry_hits (slots k) rip context
        then some k
        else search slots f (slots k).next rip context)
unfolding chain first_hit
search-cons slots f k rip context = refl

search-none :
    (slots : Array TraceEntry) (f rip context : ℕ) → search slots f none rip context ≡ none
unfolding chain first_hit
search-none slots zero rip context = refl
search-none slots (suc f) rip context = refl

search-zero :
    (slots slots' : Array TraceEntry) (k rip context : ℕ)
    → search slots zero (some k) rip context ≡ search slots' zero (some k) rip context
unfolding chain first_hit
search-zero slots slots' k rip context = refl

-- A search below n depends on the links and the keys below n only.
pub search-agree :
    (slots slots' : Array TraceEntry) (n f : ℕ) (at : Option ℕ) (rip context : ℕ)
    → Descends slots n
    → Below at n
    → ((k : ℕ) → k < n → (slots' k).next ≡ (slots k).next)
    → ((k : ℕ) → k < n → entry_hits (slots' k) rip context ≡ entry_hits (slots k) rip context)
    → search slots' f at rip context ≡ search slots f at rip context
unfolding Below Descends
search-agree slots slots' n f none rip context d b links hits =
    search-none slots' f rip context ∙ sym (search-none slots f rip context)
search-agree slots slots' n zero (some k) rip context d b links hits =
    search-zero slots' slots k rip context
search-agree slots slots' n (suc f) (some k) rip context d b links hits =
    let rest : search slots' f (slots k).next rip context
        ≡ search slots f (slots k).next rip context =
      search-agree slots slots' n f (slots k).next rip context d
        (Below-mono (slots k).next k n (omega arith) (d k b)) links hits in
    search-cons slots' f k rip context
    ∙ rw (hits k b, links k b, rest) (sym (search-cons slots f k rip context))

-- What is found hits.
pub first_hit-hits :
    (slots : Array TraceEntry) (rip context k : ℕ) (ks : List ℕ)
    → first_hit slots rip context ks ≡ some k
    → entry_hits (slots k) rip context ≡ true
unfolding first_hit
first_hit-hits slots rip context k [] h = ground arith
first_hit-hits slots rip context k (j ∷ ks) h =
    elim (Bool-cases (entry_hits (slots j) rip context)) [
      | inl e ↦ ground arith
      | inr e ↦ first_hit-hits slots rip context k ks (ground arith)
    ]

pub first_hit-none :
    (slots : Array TraceEntry) (rip context : ℕ) (ks : List ℕ)
    → ((k : ℕ) → entry_hits (slots k) rip context ≡ false)
    → first_hit slots rip context ks ≡ none
unfolding first_hit
first_hit-none slots rip context [] h = refl
first_hit-none slots rip context (j ∷ ks) h = rw (h j) (first_hit-none slots rip context ks h)

-- What is found is in use.
pub search-Below :
    (slots : Array TraceEntry) (n f : ℕ) (at : Option ℕ) (rip context k : ℕ)
    → Descends slots n
    → Below at n
    → search slots f at rip context ≡ some k
    → k < n
unfolding Below Descends chain first_hit
search-Below slots n zero none rip context k d b h = ground arith
search-Below slots n zero (some j) rip context k d b h = ground arith
search-Below slots n (suc f) none rip context k d b h = ground arith
search-Below slots n (suc f) (some j) rip context k d b h =
    elim (Bool-cases (entry_hits (slots j) rip context)) [
      | inl e ↦ ground arith
      | inr e ↦
          search-Below slots n f (slots j).next rip context k d
            (Below-mono (slots j).next j n (omega arith) (d j b)) (ground arith)
    ]
