-- ===== src/V72Rob/Retire/Valid.antt =====
-- V72RobRetireEntry keeps the state valid, and its two loops free the retired front of a ring.
use bemi_bios.Prelude.{
  ℕ, zero, suc, ◌+◌, ◌^◌, ◌≤◌, ◌<◌, ◌≡◌, ◌⊎◌, inl, inr, refl, Bool, true, false, ◌&&◌, some, arith,
  dec32, ltb, leb, ◌==◌, Bool-cases,
}
use bemi_bios.Efi.{success, not_ready, invalid_parameter}
use bemi_bios.BankSearch.{rob_banks}
use bemi_bios.Rob.{is_retired}
use bemi_bios.V72Rob.{CompressedRing, V72State, returns, v72_rob_main_entries, v72_rob_ext_entries}
use bemi_bios.V72Rob.Ring.{IsRing, Holds, IsValid, InBounds}
use bemi_bios.V72Rob.Retire.{
  StatusReply, mark_retired, free_head, drain, retire_main, retire_ext, retire_entry,
}

-- What a loop leaves: a ring with the two counters equal, no more entries than before, and no
-- retired entry at its head.
record Drained (size : ℕ) (r : CompressedRing) (out : CompressedRing × ℕ) : Type 0 where
  shape : IsRing size out.0
  agrees : out.1 ≡ out.0.count
  fewer : out.0.count ≤ r.count
  stopped : (ltb 0 out.0.count && is_retired (out.0.entries out.0.head).state) ≡ false

FreesHead : ℕ → CompressedRing → Type 0
FreesHead size r = IsRing size (free_head size r) × ((free_head size r).count + 1 ≡ r.count)

free_main_head :
    (r : CompressedRing)
    → IsRing v72_rob_main_entries r
    → 0 < r.count
    → FreesHead v72_rob_main_entries r
unfolding free_head FreesHead
free_main_head r v h = omega (arith, v)

free_ext_head :
    (r : CompressedRing)
    → IsRing v72_rob_ext_entries r
    → 0 < r.count
    → FreesHead v72_rob_ext_entries r
unfolding free_head FreesHead
free_ext_head r v h = omega (arith, v)

head_waits : CompressedRing → Bool
head_waits r = ltb 0 r.count && is_retired (r.entries r.head).state

drain_step :
    (size n : ℕ) (r : CompressedRing) (counter : ℕ)
    → head_waits r ≡ true
    → drain size (suc n) r counter ≡ drain size n (free_head size r) (dec32 counter)
unfolding drain head_waits
drain_step size n r counter h = ground arith

drain_stop :
    (size n : ℕ) (r : CompressedRing) (counter : ℕ)
    → head_waits r ≡ false
    → drain size (suc n) r counter ≡ (r, counter)
unfolding drain head_waits
drain_stop size n r counter h = ground arith

module _ (size : ℕ) (small : size < 2 ^ 32)
    (frees : (r : CompressedRing) → IsRing size r → 0 < r.count → FreesHead size r) where
  drain-Drained :
      (n : ℕ) (r : CompressedRing) (counter : ℕ)
      → IsRing size r
      → counter ≡ r.count
      → r.count ≤ n
      → Drained size r (drain size n r counter)
  unfolding head_waits FreesHead
  drain-Drained zero r counter v e h =
      unfold drain in record { shape = v; agrees = e; fewer = omega arith; stopped = ground arith }
  drain-Drained (suc n) r counter v e h = elim (Bool-cases (head_waits r)) [
    | inr t ↦
        rw (drain_stop size n r counter t)
          (record { shape = v; agrees = e; fewer = omega arith; stopped = t })
    | inl t ↦
        let (w, less) = frees r v (ground arith) in
        let ih =
          drain-Drained n (free_head size r) (dec32 counter) w (omega (arith, v.count_in))
            (omega arith) in
        rw (drain_step size n r counter t) (record {
          shape = ih.shape;
          agrees = ih.agrees;
          fewer = omega (arith, ih.fewer);
          stopped = ih.stopped;
        })
  ]

-- A valid state is left; either the call succeeded, or it was not ready and changed nothing.
abbrev pub Ends : V72State → StatusReply → Type 0
Ends s (status, t) = IsValid t × ((status ≡ success) ⊎ ((status ≡ not_ready) × (t ≡ s)))

module _ {s : V72State} (v : IsValid s) where
  retire_main-Ends : (slot : ℕ) → Ends s (retire_main s v.main.ring slot)
  retire_main-Ends slot = elim (Bool-cases (v.main.ring.count == 0)) [
    | inl e ↦ rw e (v, inr (refl, refl))
    | inr e ↦
        let marked = mark_retired v.main.ring slot in
        let d =
          drain-Drained v72_rob_main_entries (omega arith) free_main_head v.main.ring.count marked
            s.main_count (unfold mark_retired in omega (arith, v.main.shape))
            (unfold mark_retired in v.main.agrees) (unfold mark_retired in omega arith) in
        rw e (
          record {
            main = record { ring = _; points = refl; shape = d.shape; agrees = d.agrees };
            ext = v.ext;
            meta_at = v.meta_at;
            tail_in = v.tail_in;
            next_in = v.next_in;
          },
          inl refl,
        )
  ]

  retire_ext-Ends :
      (eb slot : ℕ) → (h : eb < rob_banks) → Ends s (retire_ext s eb slot (some (v.ext eb h).ring))
  retire_ext-Ends eb slot h =
      let old = v.ext eb h in
      elim (Bool-cases (old.ring.count == 0)) [
        | inl e ↦ rw e (v, inr (refl, refl))
        | inr e ↦
            let marked = mark_retired old.ring slot in
            let d =
              drain-Drained v72_rob_ext_entries (omega arith) free_ext_head old.ring.count marked
                (s.ext_counts eb) (unfold mark_retired in omega (arith, old.shape))
                (unfold mark_retired in old.agrees) (unfold mark_retired in omega arith) in
            let out = drain v72_rob_ext_entries old.ring.count marked (s.ext_counts eb) in
            let new : Holds v72_rob_ext_entries (some out.0) out.1 = record {
              ring = out.0;
              points = refl;
              shape = d.shape;
              agrees = d.agrees;
            } in
            rw e (
              record {
                main = v.main;
                ext = λ i hi. elim (Bool-cases (i == eb)) [
                  | inl e ↦ rw e new
                  | inr e ↦ rw e (v.ext i hi)
                ];
                meta_at = v.meta_at;
                tail_in = v.tail_in;
                next_in = v.next_in;
              },
              inl refl,
            )
      ]

  -- V72RobRetireEntry on a valid state returns, with no NULL dereference: a tag out of range is
  -- refused with nothing changed; any other tag names a slot inside its ring, and the call
  -- leaves a valid state, which is the old one if it was not ready.
  pub retire_entry-Ends :
      (tag : ℕ)
      → ((v72_rob_main_entries ≤ tag) × (retire_entry s tag ≡ returns (invalid_parameter, s)))
        ⊎ ((reply : StatusReply) × (retire_entry s tag ≡ returns reply)
            × InBounds (v.meta_at.0 tag)
            × Ends s reply)
  unfolding retire_entry
  retire_entry-Ends tag = elim (Bool-cases (leb v72_rob_main_entries tag)) [
    | inl big ↦ inl (ground arith, ground (arith, v.main.points, v.meta_at.1))
    | inr ok ↦
        let m = v.meta_at.0 tag in
        elim (v.meta_at.2 tag (ground arith)) [
          | inl (bank, slot_in) ↦ inr (
            retire_main s v.main.ring m.slot_in_bank,
            ground (arith, v.main.points, v.meta_at.1),
            inl (bank, slot_in),
            retire_main-Ends m.slot_in_bank,
          )
          | inr (bank_in, slot_in) ↦ inr (
            retire_ext s m.bank_id m.slot_in_bank (some (v.ext m.bank_id bank_in).ring),
            ground (arith, v.main.points, v.meta_at.1, (v.ext m.bank_id bank_in).points),
            inr (bank_in, slot_in),
            retire_ext-Ends m.bank_id m.slot_in_bank bank_in,
          )
        ]
  ]
