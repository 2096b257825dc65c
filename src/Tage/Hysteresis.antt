-- ===== src/Tage/Hysteresis.antt =====
-- The useful counters and what a series of updates of one branch leads to.
use bemi_bios.Prelude.{
  ℕ, zero, suc, ◌+◌, ◌≤◌, ◌<◌, ◌≡◌, ◌⊎◌, inl, inr, refl, ap, ◌∙◌, Bool, true, false, none, ltb,
  Array, inc64, arith, Option-cases,
}
use bemi_bios.Tage.{
  tage_table_count, TageEntry, Tage, predictor_init, tage_index, tage_tag, entry_of, set_entry,
  find_table, predict, same_direction, train, find_victim, allocate, learn, tage_update,
  fill_tables, fill_branch, prefill_from, prefill_kernel, branch_rip,
}
use bemi_bios.Tage.Training.{
  Known, trained, counted, update-Known, predict-Known, update_step, learn-Known, learn-new,
  learn-full,
}

-- n updates with one outcome.
pub train_times : Tage → ℕ → Bool → ℕ → ℕ → Tage
train_times s rip taken target zero = s
train_times s rip taken target (suc n) =
    train_times (tage_update s rip taken target) rip taken target n

trained_gap :
    (e : TageEntry) (taken : Bool) (n : ℕ)
    → (e.taken ≡ taken) ⊎ (e.useful < suc n)
    → ((trained e taken).taken ≡ taken) ⊎ ((trained e taken).useful < n)
trained_gap e true n h = ground arith
trained_gap e false n h = ground arith

train_times-Known :
    (n : ℕ) (s : Tage) (rip t target : ℕ) (taken : Bool)
    → Known s rip t
    → ((entry_of s rip t).taken ≡ taken) ⊎ ((entry_of s rip t).useful < n)
    → Known (train_times s rip taken target n) rip t
      × ((entry_of (train_times s rip taken target n) rip t).taken ≡ taken)
unfolding train_times
train_times-Known zero s rip t target taken k (inl h) = (k, h)
train_times-Known zero s rip t target taken k (inr h) = absurd (omega arith)
train_times-Known (suc n) s rip t target taken k h =
    let (k', e) = update-Known s rip t target taken k in
    train_times-Known n (tage_update s rip taken target) rip t target taken k'
      (rw e (trained_gap (entry_of s rip t) taken n h))

-- A branch that a table knows is predicted with a new outcome, direction and target, after more
-- updates with that outcome in a row than its useful counter says.
pub predict-train_times :
    (n : ℕ) (s : Tage) (rip t target : ℕ) (taken : Bool)
    → Known s rip t
    → (entry_of s rip t).useful < n
    → (predict (train_times s rip taken target n) rip).0 ≡ taken
predict-train_times n s rip t target taken k h =
    let (k', e) = train_times-Known n s rip t target taken k (inr h) in
    ap (λ x. x.0) (predict-Known (train_times s rip taken target n) rip t k') ∙ e

-- Every useful counter fits its three bits.
abbrev pub Bounded : Tage → Type 0
Bounded s = (t i : ℕ) → (s.tables t i).useful ≤ 7

set_entry-Bounded :
    (s : Tage) (rip t : ℕ) (e : TageEntry)
    → Bounded s
    → e.useful ≤ 7
    → Bounded (set_entry s rip t e)
set_entry-Bounded s rip t e b h u i = ground (arith, b u i)

train-Bounded : (s : Tage) (rip t : ℕ) (taken : Bool) → Bounded s → Bounded (train s rip t taken)
unfolding train
train-Bounded s rip t taken b u i = ground (arith, b u i, b t (tage_index rip t))

allocate-Bounded : (s : Tage) (rip : ℕ) (taken : Bool) → Bounded s → Bounded (allocate s rip taken)
unfolding allocate
allocate-Bounded s rip taken b u i = elim (Option-cases (find_victim s rip tage_table_count 0)) [
  | inl e ↦ rw (allocate, e) (b u i)
  | inr (t, e) ↦ rw (allocate, e) (ground (arith, b u i))
]

learn-Bounded : (s : Tage) (rip : ℕ) (taken : Bool) → Bounded s → Bounded (learn s rip taken)
unfolding learn
learn-Bounded s rip taken b = elim (Option-cases (find_table s rip tage_table_count)) [
  | inl e ↦ rw (learn, e) (allocate-Bounded s rip taken b)
  | inr (t, e) ↦ rw (learn, e) (train-Bounded s rip t taken b)
]

fill_tables-Bounded :
    (s : Tage) (rip target rounds t : ℕ) → Bounded s → Bounded (fill_tables s rip target rounds t)
unfolding fill_tables
fill_tables-Bounded s rip target zero t b = b
fill_tables-Bounded s rip target (suc rounds) t b =
    let e : TageEntry = record {
      tag = tage_tag rip t;
      useful = 2;
      taken = ltb rip target;
      valid = true;
    } in
    fill_tables-Bounded (set_entry s rip t e) rip target rounds (t + 1)
      (set_entry-Bounded s rip t e b (omega arith))

prefill_from-Bounded :
    (rounds i base : ℕ) (targets : Array ℕ) (s : Tage)
    → Bounded s
    → Bounded (prefill_from rounds i base targets s)
unfolding prefill_from fill_branch
prefill_from-Bounded zero i base targets s b = b
prefill_from-Bounded (suc rounds) i base targets s b =
    let rip = branch_rip base i in
    prefill_from-Bounded rounds (i + 1) base targets (fill_branch s rip (targets i))
      (fill_tables-Bounded s rip (targets i) tage_table_count 0 b)

-- An initial predictor has every useful counter in three bits, and updates and prefills keep it so.
pub predictor-Bounded :
    Bounded predictor_init
    × ((s : Tage) (rip target : ℕ) (taken : Bool)
        → Bounded s
        → Bounded (tage_update s rip taken target))
    × ((s : Tage) (base count : ℕ) (targets : Array ℕ)
        → Bounded s
        → Bounded (prefill_kernel s base targets count))
unfolding tage_update
predictor-Bounded = (
  λ t i. omega arith,
  λ s rip target taken b.
      learn-Bounded (record s { predictions = inc64 s.predictions }) rip taken b,
  λ s base count targets b. prefill_from-Bounded count 0 base targets s b,
)

train_counts :
    (s : Tage) (rip t : ℕ) (taken : Bool)
    → let s' = train s rip t taken in
      (s'.predictions ≡ s.predictions)
      × (same_direction (entry_of s rip t).taken taken ≡ true
          → (s'.correct ≡ inc64 s.correct) × (s'.mispredictions ≡ s.mispredictions))
      × (same_direction (entry_of s rip t).taken taken ≡ false
          → (s'.correct ≡ s.correct) × (s'.mispredictions ≡ inc64 s.mispredictions))
unfolding train
train_counts s rip t taken =
    (ground arith, λ h. (ground arith, ground arith), λ h. (ground arith, ground arith))

-- An update of a branch that a table knows counts a prediction, and one of a correct and a wrong one
-- by whether the table's direction was the outcome.
pub update_counts-Known :
    (s : Tage) (rip t target : ℕ) (taken : Bool)
    → Known s rip t
    → let s' = tage_update s rip taken target in
      (s'.predictions ≡ inc64 s.predictions)
      × (same_direction (predict s rip).0 taken ≡ true
          → (s'.correct ≡ inc64 s.correct) × (s'.mispredictions ≡ s.mispredictions))
      × (same_direction (predict s rip).0 taken ≡ false
          → (s'.correct ≡ s.correct) × (s'.mispredictions ≡ inc64 s.mispredictions))
update_counts-Known s rip t target taken k =
    rw (update_step s rip target taken, learn-Known s rip t taken k, predict-Known s rip t k)
      (train_counts (counted s) rip t taken)

-- An update of a branch that no table knows counts a prediction, and neither a correct nor a wrong
-- one.
pub update_counts-not_Known :
    (s : Tage) (rip target : ℕ) (taken : Bool)
    → find_table s rip tage_table_count ≡ none
    → let s' = tage_update s rip taken target in
      (s'.predictions ≡ inc64 s.predictions)
      × (s'.correct ≡ s.correct)
      × (s'.mispredictions ≡ s.mispredictions)
update_counts-not_Known s rip target taken k =
    elim (Option-cases (find_victim s rip tage_table_count 0)) [
      | inl v ↦ rw (update_step s rip target taken, learn-full s rip taken k v) (refl, refl, refl)
      | inr (t, v) ↦
          rw (update_step s rip target taken, learn-new s rip t taken k v) (refl, refl, refl)
    ]
