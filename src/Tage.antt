-- ===== src/Tage.antt =====
-- The branch predictor of performance/tage/tagepredictor.c: four tagged tables, the branch target
-- buffer behind them, and the counters.
pub mod Lookup
pub mod Training
pub mod Hysteresis
pub mod Prefill
mod Tests
use bemi_bios.Prelude.{
  ℕ, zero, suc, ◌+◌, ◌-◌, ◌*◌, ◌/◌, ◌%◌, ◌^◌, Bool, true, false, ◌&&◌, ◌||◌, not, Option, none,
  some, ltb, ◌==◌, if◌then◌else◌, Array, update, inc64, add64, low32, bit_xor,
}

abbrev pub tage_table_count : ℕ
tage_table_count = 4

abbrev pub tage_entries_per_table : ℕ
tage_entries_per_table = 4096

abbrev pub btb_entries : ℕ
btb_entries = 8192

-- `useful` is a field of three bits.
pub record TageEntry : Type 0 where
  pub tag : ℕ
  pub useful : ℕ
  pub taken : Bool
  pub valid : Bool

pub record BtbEntry : Type 0 where
  pub target_rip : ℕ
  pub target_address : ℕ
  pub tag : ℕ
  pub valid : Bool

pub record Tage : Type 0 where
  pub tables : Array (Array TageEntry)
  pub btb : Array BtbEntry
  pub predictions : ℕ
  pub correct : ℕ
  pub mispredictions : ℕ

abbrev pub zero_entry : TageEntry
zero_entry = record { tag = 0; useful = 0; taken = false; valid = false }

abbrev pub zero_btb : BtbEntry
zero_btb = record { target_rip = 0; target_address = 0; tag = 0; valid = false }

-- TagePredictorInit
abbrev pub predictor_init : Tage
predictor_init = record {
  tables = λ _ _. zero_entry;
  btb = λ _. zero_btb;
  predictions = 0;
  correct = 0;
  mispredictions = 0;
}

unfoldable pub tage_index : ℕ → ℕ → ℕ
tage_index rip table = rip / 2 ^ (table * 4 + 2) % tage_entries_per_table

unfoldable pub tage_tag : ℕ → ℕ → ℕ
tage_tag rip table = bit_xor (rip / 2 ^ (table * 4 + 6)) (rip % 2 ^ 12)

-- &gTageTables[t][TageIndex(Rip, t)]
abbrev pub entry_of : Tage → ℕ → ℕ → TageEntry
entry_of s rip t = s.tables t (tage_index rip t)

abbrev pub set_entry : Tage → ℕ → ℕ → TageEntry → Tage
set_entry s rip t e = record s {
  tables = update s.tables t (update (s.tables t) (tage_index rip t) e);
}

unfoldable pub table_hits : Tage → ℕ → ℕ → Bool
table_hits s rip t = (entry_of s rip t).valid && (entry_of s rip t).tag == tage_tag rip t

-- The search of TagePredict and TageUpdate over the tables below n, the highest first.
unfoldable pub find_table : Tage → ℕ → ℕ → Option ℕ
find_table s rip zero = none
find_table s rip (suc t) =
    let rest = find_table s rip t in if table_hits s rip t then some t else rest

abbrev pub btb_index : ℕ → ℕ
btb_index rip = rip % btb_entries

unfoldable pub btb_hits : Tage → ℕ → Bool
btb_hits s rip = (s.btb (btb_index rip)).valid && (s.btb (btb_index rip)).target_rip == rip

-- What *Target is set to.
abbrev pub predicted_target : Tage → ℕ → ℕ
predicted_target s rip =
    if btb_hits s rip then (s.btb (btb_index rip)).target_address else add64 rip 4

-- TagePredict: the direction, and what is written through Target where it is not NULL.
unfoldable pub predict : Tage → ℕ → Bool × ℕ
predict s rip = elim (find_table s rip tage_table_count) [
  | some t ↦ ((entry_of s rip t).taken, predicted_target s rip)
  | none ↦ (btb_hits s rip, predicted_target s rip)
]

abbrev pub same_direction : Bool → Bool → Bool
same_direction a b = if a then b else not b

-- The branch of TageUpdate for a table that hits.
unfoldable pub train : Tage → ℕ → ℕ → Bool → Tage
train s rip t taken =
    let e = entry_of s rip t in
    if same_direction e.taken taken
    then (let s' =
          if ltb e.useful 7 then set_entry s rip t (record e { useful = e.useful + 1 }) else s in
        record s' { correct = inc64 s'.correct })
    else (let s' =
          if ltb 0 e.useful
          then set_entry s rip t (record e { useful = e.useful - 1 })
          else set_entry s rip t (record e { taken = taken }) in
        record s' { mispredictions = inc64 s'.mispredictions })

-- The first table from t on whose entry may be replaced.
unfoldable pub find_victim : Tage → ℕ → ℕ → ℕ → Option ℕ
find_victim s rip zero t = none
find_victim s rip (suc rounds) t =
    let rest = find_victim s rip rounds (t + 1) in
    if not (entry_of s rip t).valid || (entry_of s rip t).useful == 0 then some t else rest

-- The branch of TageUpdate for a branch that no table knows.
unfoldable pub allocate : Tage → ℕ → Bool → Tage
allocate s rip taken = elim (find_victim s rip tage_table_count 0) [
  | none ↦ s
  | some t ↦
      set_entry s rip t (record { tag = tage_tag rip t; useful = 0; taken = taken; valid = true })
]

abbrev pub set_btb : Tage → ℕ → ℕ → Tage
set_btb s rip target = record s {
  btb =
      update s.btb (btb_index rip)
        (record { target_rip = rip; target_address = target; tag = rip / 2 ^ 12; valid = true });
}

unfoldable pub learn : Tage → ℕ → Bool → Tage
learn s rip taken = elim (find_table s rip tage_table_count) [
  | some t ↦ train s rip t taken
  | none ↦ allocate s rip taken
]

-- TageUpdate
unfoldable pub tage_update : Tage → ℕ → Bool → ℕ → Tage
tage_update s rip taken target =
    set_btb (learn (record s { predictions = inc64 s.predictions }) rip taken) rip target

-- The inner loop of TagePrefillKernel over the tables t, t + 1, ...
unfoldable pub fill_tables : Tage → ℕ → ℕ → ℕ → ℕ → Tage
fill_tables s rip target zero t = s
fill_tables s rip target (suc rounds) t =
    let e : TageEntry = record {
      tag = tage_tag rip t;
      useful = 2;
      taken = ltb rip target;
      valid = true;
    } in
    fill_tables (set_entry s rip t e) rip target rounds (t + 1)

-- KernelBase + i * 16, the product in 32 bits and the sum in 64.
abbrev pub branch_rip : ℕ → ℕ → ℕ
branch_rip base i = add64 base (low32 (i * 16))

unfoldable pub fill_branch : Tage → ℕ → ℕ → Tage
fill_branch s rip target = set_btb (fill_tables s rip target tage_table_count 0) rip target

-- The outer loop of TagePrefillKernel over the branches i, i + 1, ...
unfoldable pub prefill_from : ℕ → ℕ → ℕ → Array ℕ → Tage → Tage
prefill_from zero i base targets s = s
prefill_from (suc rounds) i base targets s =
    prefill_from rounds (i + 1) base targets (fill_branch s (branch_rip base i) (targets i))

abbrev pub prefill_kernel : Tage → ℕ → Array ℕ → ℕ → Tage
prefill_kernel s base targets count = prefill_from count 0 base targets s

abbrev pub get_stats : Tage → ℕ × ℕ × ℕ
get_stats s = (s.predictions, s.correct, s.mispredictions)
