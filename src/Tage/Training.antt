-- ===== src/Tage/Training.antt =====
-- What an update teaches the predictor.
use bemi_bios.Prelude.{
  ℕ, zero, suc, ◌+◌, ◌-◌, ◌≡◌, ◌≢◌, inl, inr, refl, ap, ◌∙◌, Bool, true, none, some, ltb,
  if◌then◌else◌, inc64, arith, Option-cases,
}
use bemi_bios.Tage.{
  tage_table_count, TageEntry, Tage, tage_tag, entry_of, set_entry, table_hits, find_table,
  btb_hits, predicted_target, predict, same_direction, train, find_victim, allocate, set_btb, learn,
  tage_update,
}
use bemi_bios.Tage.Lookup.{
  find_table-HighestHit, find_table-misses, set_entry-Placed, find_table-Placed, find_victim-bound,
}

-- Everything the tables say about a branch.
abbrev pub Known : Tage → ℕ → ℕ → Type 0
Known s rip t = find_table s rip tage_table_count ≡ some t

-- The direction bit of the entry after a training step, and its useful counter.
abbrev pub trained : TageEntry → Bool → TageEntry
trained e taken =
    if same_direction e.taken taken
    then (if ltb e.useful 7 then record e { useful = e.useful + 1 } else e)
    else if ltb 0 e.useful
    then record e { useful = e.useful - 1 }
    else record e { taken = taken }

train-entry :
    (s : Tage) (rip t : ℕ) (taken : Bool)
    → (entry_of (train s rip t taken) rip t ≡ trained (entry_of s rip t) taken)
      × ((u : ℕ) → u ≢ t → entry_of (train s rip t taken) rip u ≡ entry_of s rip u)
unfolding train
train-entry s rip t taken = (ground arith, λ u ne. ground arith)

trained_same :
    (e : TageEntry) (taken : Bool)
    → ((trained e taken).valid ≡ e.valid) × ((trained e taken).tag ≡ e.tag)
trained_same e taken = (ground arith, ground arith)

btb_after :
    (s : Tage) (rip target : ℕ)
    → (predicted_target (set_btb s rip target) rip ≡ target)
      × (btb_hits (set_btb s rip target) rip ≡ true)
unfolding btb_hits
btb_after s rip target = (ground arith, ground arith)

-- The search reads the tables only.
find_table-cong :
    (s s' : Tage) (rip n : ℕ) → s'.tables ≡ s.tables → find_table s' rip n ≡ find_table s rip n
unfolding find_table table_hits
find_table-cong s s' rip zero e = refl
find_table-cong s s' rip (suc n) e = rw (find_table-cong s s' rip n e, e) refl

find_victim-cong :
    (s s' : Tage) (rip rounds t : ℕ)
    → s'.tables ≡ s.tables
    → find_victim s' rip rounds t ≡ find_victim s rip rounds t
unfolding find_victim
find_victim-cong s s' rip zero t e = refl
find_victim-cong s s' rip (suc rounds) t e = rw (find_victim-cong s s' rip rounds (t + 1) e, e) refl

-- The direction that is predicted for a branch, by its tables and its BTB entry.
pub predict-Known :
    (s : Tage) (rip t : ℕ)
    → Known s rip t
    → predict s rip ≡ ((entry_of s rip t).taken, predicted_target s rip)
unfolding predict
predict-Known s rip t k = rw (predict, k) refl

predict-not_Known :
    (s : Tage) (rip : ℕ)
    → find_table s rip tage_table_count ≡ none
    → predict s rip ≡ (btb_hits s rip, predicted_target s rip)
unfolding predict
predict-not_Known s rip k = rw (predict, k) refl

abbrev pub counted : Tage → Tage
counted s = record s { predictions = inc64 s.predictions }

pub update_step :
    (s : Tage) (rip target : ℕ) (taken : Bool)
    → tage_update s rip taken target ≡ set_btb (learn (counted s) rip taken) rip target
unfolding tage_update
update_step s rip target taken = refl

pub learn-Known :
    (s : Tage) (rip t : ℕ) (taken : Bool)
    → Known s rip t
    → learn (counted s) rip taken ≡ train (counted s) rip t taken
unfolding learn
learn-Known s rip t taken k =
    rw (learn, find_table-cong s (counted s) rip tage_table_count refl, k) refl

abbrev pub fresh : ℕ → ℕ → Bool → TageEntry
fresh rip t taken = record { tag = tage_tag rip t; useful = 0; taken = taken; valid = true }

pub learn-new :
    (s : Tage) (rip t : ℕ) (taken : Bool)
    → find_table s rip tage_table_count ≡ none
    → find_victim s rip tage_table_count 0 ≡ some t
    → learn (counted s) rip taken ≡ set_entry (counted s) rip t (fresh rip t taken)
unfolding learn allocate
learn-new s rip t taken k v =
    rw
      (
        learn,
        find_table-cong s (counted s) rip tage_table_count refl,
        k,
        allocate,
        find_victim-cong s (counted s) rip tage_table_count 0 refl,
        v,
      )
      refl

pub learn-full :
    (s : Tage) (rip : ℕ) (taken : Bool)
    → find_table s rip tage_table_count ≡ none
    → find_victim s rip tage_table_count 0 ≡ none
    → learn (counted s) rip taken ≡ counted s
unfolding learn allocate
learn-full s rip taken k v =
    rw
      (
        learn,
        find_table-cong s (counted s) rip tage_table_count refl,
        k,
        allocate,
        find_victim-cong s (counted s) rip tage_table_count 0 refl,
        v,
      )
      refl

-- An update of a branch that table t knows leaves it in table t, trained.
pub update-Known :
    (s : Tage) (rip t target : ℕ) (taken : Bool)
    → Known s rip t
    → Known (tage_update s rip taken target) rip t
      × (entry_of (tage_update s rip taken target) rip t ≡ trained (entry_of s rip t) taken)
update-Known s rip t target taken k =
    let (lt, hit, above) = find_table-HighestHit s rip tage_table_count t k in
    let (there, others) = train-entry (counted s) rip t taken in
    let (v, g) = trained_same (entry_of s rip t) taken in
    let (hv, hg) : ((entry_of s rip t).valid ≡ true) × ((entry_of s rip t).tag ≡ tage_tag rip t) =
      unfold table_hits in ground (arith, hit) in
    rw (update_step s rip target taken, learn-Known s rip t taken k)
      (
        find_table-Placed s (set_btb (train (counted s) rip t taken) rip target) rip t
            (trained (entry_of s rip t) taken) (there, others) (v ∙ hv) (g ∙ hg) lt above,
        there,
      )

-- An update of a branch that no table knows puts it into table t, the first with a free or useless
-- entry.
pub update-new :
    (s : Tage) (rip t target : ℕ) (taken : Bool)
    → find_table s rip tage_table_count ≡ none
    → find_victim s rip tage_table_count 0 ≡ some t
    → Known (tage_update s rip taken target) rip t
      × ((entry_of (tage_update s rip taken target) rip t).taken ≡ taken)
update-new s rip t target taken unknown victim =
    let e = fresh rip t taken in
    let (there, others) = set_entry-Placed (counted s) rip t e in
    let (_, lt) = find_victim-bound s rip tage_table_count 0 t victim in
    let misses = find_table-misses s rip tage_table_count unknown in
    let known =
      find_table-Placed s (set_btb (set_entry (counted s) rip t e) rip target) rip t e
        (there, others) refl refl lt (λ u lo hi. misses u hi) in
    rw (update_step s rip target taken, learn-new s rip t taken unknown victim)
      (known, ap (λ x. x.taken) there)

update-full :
    (s : Tage) (rip target : ℕ) (taken : Bool)
    → find_table s rip tage_table_count ≡ none
    → find_victim s rip tage_table_count 0 ≡ none
    → find_table (tage_update s rip taken target) rip tage_table_count ≡ none
update-full s rip target taken unknown victim =
    rw (update_step s rip target taken, learn-full s rip taken unknown victim)
      (find_table-cong s (set_btb (counted s) rip target) rip tage_table_count refl ∙ unknown)

-- After an update of a branch, its predicted target is the target that was trained, whatever the
-- tables say.
pub predict-update_target :
    (s : Tage) (rip target : ℕ) (taken : Bool)
    → (predict (tage_update s rip taken target) rip).1 ≡ target
predict-update_target s rip target taken =
    let after = tage_update s rip taken target in
    let there : predicted_target after rip ≡ target =
      unfold tage_update in (btb_after (learn (counted s) rip taken) rip target).0 in
    elim (Option-cases (find_table after rip tage_table_count)) [
      | inl k ↦ ap (λ x. x.1) (predict-not_Known after rip k) ∙ there
      | inr (t, k) ↦ ap (λ x. x.1) (predict-Known after rip t k) ∙ there
    ]

-- The direction that is predicted after an update, in the three cases: a branch that a table knew
-- keeps its direction while its useful counter lasts; a new one predicts what was taken where a
-- table has room; and where none has, the BTB entry alone predicts taken.
pub predict-update :
    (s : Tage) (rip target : ℕ) (taken : Bool)
    → ((t : ℕ)
        → Known s rip t
        → (predict (tage_update s rip taken target) rip).0
          ≡ (trained (entry_of s rip t) taken).taken)
      × (find_table s rip tage_table_count ≡ none
          → ((t : ℕ)
              → find_victim s rip tage_table_count 0 ≡ some t
              → (predict (tage_update s rip taken target) rip).0 ≡ taken)
            × (find_victim s rip tage_table_count 0 ≡ none
                → (predict (tage_update s rip taken target) rip).0 ≡ true))
predict-update s rip target taken =
    let after = tage_update s rip taken target in
    (
      λ t k.
          let (k', e) = update-Known s rip t target taken k in
          ap (λ x. x.0) (predict-Known after rip t k') ∙ ap (λ x. x.taken) e,
      λ unknown. (
        λ t victim.
            let (k', e) = update-new s rip t target taken unknown victim in
            ap (λ x. x.0) (predict-Known after rip t k') ∙ e,
        λ full.
            ap (λ x. x.0)
              (predict-not_Known after rip (update-full s rip target taken unknown full))
            ∙ (unfold tage_update in (btb_after (learn (counted s) rip taken) rip target).1),
      ),
    )
