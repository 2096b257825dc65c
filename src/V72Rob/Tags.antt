-- ===== src/V72Rob/Tags.antt =====
-- A tag is reused while its entry is still live: 1568 tags serve up to 67102 entries.
use bemi_bios.Prelude.{ℕ, ◌<◌, ◌≡◌, some, Array, arith, sym, ◌∙◌}
use bemi_bios.Efi.{success}
use bemi_bios.BankSearch.{rob_banks}
use bemi_bios.V72Rob.{
  Metadata, V72State, Call, returns, TagReply, v72_rob_main_entries, allocate_entry,
}
use bemi_bios.V72Rob.Ring.{IsValid}
use bemi_bios.V72Rob.Valid.{Outcome, to_main, to_ext, refused, allocate_entry-Outcome}

-- While the main ring is full, a successful allocation leaves the main ring as it is, and returns
-- the tag at the metadata tail, whatever entry has that tag; the metadata of that tag then names
-- the new slot, in an extended bank.
pub allocate_entry-reuses_tag :
    {s : V72State} (v : IsValid s) (rip start micro_ops tag : ℕ) (t : V72State)
    → s.main_count ≡ v72_rob_main_entries
    → allocate_entry s rip start micro_ops ≡ returns (success, some tag, t)
    → (tag ≡ s.meta_tail)
      × (t.main_rob ≡ s.main_rob)
      × ((meta : Array Metadata) × (t.meta ≡ some meta) × ((meta tag).bank_id < rob_banks))
allocate_entry-reuses_tag {s} v rip start micro_ops tag t full e =
    reuse (allocate_entry-Outcome v rip start micro_ops)
  where
    reuse :
        Outcome s rip (allocate_entry s rip start micro_ops)
        → (tag ≡ s.meta_tail)
          × (t.main_rob ≡ s.main_rob)
          × ((meta : Array Metadata) × (t.meta ≡ some meta) × ((meta tag).bank_id < rob_banks))
    reuse (to_main r u p room ends valid kept ext names) = absurd (omega arith)
    reuse (to_ext eb r u p first q ends valid kept ext (meta, at, bank, _, _)) =
        let same : ◌≡◌ {A = Call TagReply} (returns (success, some s.meta_tail, u))
            (returns (success, some tag, t)) =
          sym ends ∙ e in
        let tags : tag ≡ s.meta_tail = cc in
        let states : t ≡ u = cc in
        let eb_in : eb < rob_banks = omega (arith, first.place) in
        (tags, rw (states, kept), (meta, rw states at, rw (tags, bank) eb_in))
    reuse (refused p h ends) = absurd (ground arith)
