-- ===== src/V72Rob/Valid.antt =====
-- V72RobDistributorInit and V72RobAllocateEntry keep the state valid, and what allocation returns.
use bemi_bios.Prelude.{
  ℕ, ◌+◌, ◌%◌, ◌<◌, ◌≡◌, ◌⊎◌, inl, inr, refl, sym, subst, true, false, none, some, Array, update,
  arith, inc64, add32, ◌==◌, ltb, ltb→lt, Bool-cases,
}
use bemi_bios.Efi.{success, out_of_resources}
use bemi_bios.BankSearch.{rob_banks, BankSearch, found, all_full, unfinished, find_bank}
use bemi_bios.BankSearch.Cyclic.{FirstRoom, Finds, find_bank_total}
use bemi_bios.V72Rob.{
  CompressedRing, Metadata, V72State, Call, returns, TagReply, push_tag, v72_rob_main_entries,
  v72_rob_ext_entries, main_bank_id, record_tag, ext_has_room, in_ext, in_main, spill, allocate_in,
  allocate_entry,
}
use bemi_bios.V72Rob.Ring.{Holds, IsValid, push_tag-IsMain, push_tag-IsExt}

-- The metadata of `tag` names that slot of that bank, for that instruction pointer.
abbrev pub Names : V72State → ℕ → ℕ → ℕ → ℕ → Type 0
Names s tag bank slot rip =
    (meta : Array Metadata) × (s.meta ≡ some meta)
    × ((meta tag).bank_id ≡ bank)
    × ((meta tag).slot_in_bank ≡ slot)
    × ((meta tag).rip ≡ rip)

record_tag-IsValid :
    {s : V72State} (v : IsValid s) (rip start micro_ops bank slot : ℕ)
    → ((bank ≡ main_bank_id) × (slot < v72_rob_main_entries))
      ⊎ ((bank < rob_banks) × (slot < v72_rob_ext_entries))
    → (t : V72State) × (record_tag s.meta s rip start micro_ops bank slot
        ≡ returns (success, some s.meta_tail, t))
      × IsValid t
      × (t.main_rob ≡ s.main_rob)
      × (t.ext_banks ≡ s.ext_banks)
      × (t.meta_tail ≡ (s.meta_tail + 1) % v72_rob_main_entries)
      × Names t s.meta_tail bank slot rip
unfolding record_tag
record_tag-IsValid {s} v rip start micro_ops bank slot place =
    let (meta, at, each) = v.meta_at in
    let entry : Metadata = record {
      rip = rip;
      micro_op_start = start;
      micro_op_count = micro_ops;
      bank_id = bank;
      slot_in_bank = slot;
      alloc_tick = s.cycle_counter;
    } in
    (
      record s {
        meta = some (update meta s.meta_tail entry);
        meta_tail = add32 s.meta_tail 1 % v72_rob_main_entries;
        meta_count = add32 s.meta_count 1;
        total_allocations = inc64 s.total_allocations;
      },
      rw at,
      record {
        main = v.main;
        ext = v.ext;
        meta_at = (update meta s.meta_tail entry, refl, λ tag h. ground (arith, each tag));
        tail_in = omega arith;
        next_in = v.next_in;
      },
      refl,
      refl,
      omega (arith, v.tail_in),
      (update meta s.meta_tail entry, refl, ground arith, ground arith, ground arith),
    )

module _ {s : V72State} (v : IsValid s) where
  main_room :
      ltb s.main_count v72_rob_main_entries ≡ true → v.main.ring.count < v72_rob_main_entries
  main_room h = ground (arith, v.main.agrees)

  in_main-IsValid : ltb s.main_count v72_rob_main_entries ≡ true → IsValid (in_main s v.main.ring)
  unfolding push_tag
  in_main-IsValid h = record {
    main = record {
      ring = push_tag v72_rob_main_entries v.main.ring s.meta_tail;
      points = refl;
      shape = push_tag-IsMain v.main.ring s.meta_tail v.main.shape (main_room h);
      agrees = ground (arith, v.main.agrees);
    };
    ext = v.ext;
    meta_at = v.meta_at;
    tail_in = v.tail_in;
    next_in = v.next_in;
  }

  in_ext-IsValid :
      (eb : ℕ) (hb : eb < rob_banks)
      → (v.ext eb hb).ring.count < v72_rob_ext_entries
      → IsValid (in_ext s eb (v.ext eb hb).ring)
  unfolding push_tag
  in_ext-IsValid eb hb h =
      let old = v.ext eb hb in
      let new : Holds v72_rob_ext_entries (some (push_tag v72_rob_ext_entries old.ring s.meta_tail))
          (add32 (s.ext_counts eb) 1) =
        record {
          ring = push_tag v72_rob_ext_entries old.ring s.meta_tail;
          points = refl;
          shape = push_tag-IsExt old.ring s.meta_tail old.shape h;
          agrees = ground (arith, old.agrees);
        } in
      record {
        main = v.main;
        ext = λ i hi. elim (Bool-cases (i == eb)) [ inl e ↦ rw e new | inr e ↦ rw e (v.ext i hi) ];
        meta_at = v.meta_at;
        tail_in = v.tail_in;
        next_in = omega arith;
      }

-- The ways in which V72RobAllocateEntry ends on a valid state.
pub data Outcome (s : V72State) (rip : ℕ) (reply : Call TagReply) : Type 0 where
  to_main :
      (r : CompressedRing) (t : V72State)
      → s.main_rob ≡ some r
      → s.main_count < v72_rob_main_entries
      → reply ≡ returns (success, some s.meta_tail, t)
      → IsValid t
      → t.main_rob ≡ some (push_tag v72_rob_main_entries r s.meta_tail)
      → t.ext_banks ≡ s.ext_banks
      → Names t s.meta_tail main_bank_id r.tail rip
      → Outcome s rip reply
  to_ext :
      (eb : ℕ) (r : CompressedRing) (t : V72State)
      → s.main_count ≡ v72_rob_main_entries
      → FirstRoom (ext_has_room s.ext_banks) s.next_ext_bank eb
      → s.ext_banks eb ≡ some r
      → reply ≡ returns (success, some s.meta_tail, t)
      → IsValid t
      → t.main_rob ≡ s.main_rob
      → t.ext_banks ≡ update s.ext_banks eb (some (push_tag v72_rob_ext_entries r s.meta_tail))
      → Names t s.meta_tail eb r.tail rip
      → Outcome s rip reply
  refused :
      s.main_count ≡ v72_rob_main_entries
      → ((eb : ℕ) → eb < rob_banks → ext_has_room s.ext_banks eb ≡ false)
      → reply ≡ returns (out_of_resources, none, record s { total_stalls = inc64 s.total_stalls })
      → Outcome s rip reply

module _ {s : V72State} (v : IsValid s) (rip start micro_ops : ℕ) where
  main_full : ltb s.main_count v72_rob_main_entries ≡ false → s.main_count ≡ v72_rob_main_entries
  main_full h = ground (arith, v.main.agrees, v.main.shape)

  spill-Outcome :
      (search : BankSearch)
      → s.main_count ≡ v72_rob_main_entries
      → Finds (ext_has_room s.ext_banks) s.next_ext_bank search
      → Outcome s rip (spill s rip start micro_ops search)
  spill-Outcome unfinished full h = absurd h
  spill-Outcome all_full full h = refused full h refl
  spill-Outcome (found eb) full first =
      let eb_in : eb < rob_banks = omega (arith, first.place) in
      let old = v.ext eb eb_in in
      let room : old.ring.count < v72_rob_ext_entries =
        ltb→lt _ _ (rw (old.points, ext_has_room) at first.passes) in
      let tail_in : old.ring.tail < v72_rob_ext_entries = omega (arith, old.shape) in
      let (t, ends, valid, main, ext, _, names) =
        record_tag-IsValid (in_ext-IsValid v eb eb_in room) rip start micro_ops eb old.ring.tail
          (inr (eb_in, tail_in)) in
      to_ext eb old.ring t full first old.points (rw old.points ends) valid main ext names

  -- V72RobAllocateEntry on a valid state returns, with no NULL dereference, and leaves it valid:
  -- the entry goes to the main ring while that has room, else to the first extended bank with room
  -- in cyclic order, and it is refused, with only the stall counter moved, when all are full. The
  -- tag is the metadata tail, and its metadata names the slot that was written.
  pub allocate_entry-Outcome : Outcome s rip (allocate_entry s rip start micro_ops)
  unfolding allocate_entry
  allocate_entry-Outcome = elim (Bool-cases (ltb s.main_count v72_rob_main_entries)) [
    | inl h ↦
        let tail_in : v.main.ring.tail < v72_rob_main_entries = omega (arith, v.main.shape) in
        let (t, ends, valid, main, ext, _, names) =
          record_tag-IsValid (in_main-IsValid v h) rip start micro_ops main_bank_id v.main.ring.tail
            (inl (refl, tail_in)) in
        to_main v.main.ring t v.main.points (ltb→lt _ _ h) (rw (v.main.points, h) ends) valid main
          ext names
    | inr h ↦
        let search =
          find_bank (ext_has_room s.ext_banks) rob_banks s.next_ext_bank s.next_ext_bank in
        let ends : allocate_in s s.main_rob rip start micro_ops
            ≡ spill s rip start micro_ops search =
          rw v.main.points (rw h) in
        subst (Outcome s rip) (sym ends) (
          spill-Outcome search (main_full h)
            (find_bank_total (ext_has_room s.ext_banks) s.next_ext_bank v.next_in))
  ]
