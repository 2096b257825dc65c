-- ===== src/BwGovernor.antt =====
-- The bandwidth governor of performance/bwgov/bandwidthgovernor.c. Its doubles are a type that is a
-- parameter, with the operations that the code uses on them in the record `Doubles`.
pub mod Levels
mod Tests
use bemi_bios.Prelude.{
  ℕ, zero, suc, ◌+◌, ◌-◌, ◌*◌, ◌/◌, ◌%◌, ◌^◌, Bool, true, false, ◌&&◌, not, List, [], ◌∷◌, Option,
  none, some, if◌then◌else◌, inc64, add64,
}
use bemi_bios.Doubles.{Doubles}

-- BW_GOVERNOR_STATE
pub data BwState : Type 0 where
  normal : BwState
  throttled : BwState
  severe : BwState

abbrev pub v71_max_threads : ℕ
v71_max_threads = 84

-- BW_GOVERNOR, over the type of doubles.
pub record Governor (D : Type 0) : Type 0 where
  pub state : BwState
  pub max_threads : ℕ
  pub active_threads : ℕ
  pub transactions : ℕ
  pub total_transactions : ℕ
  pub window_count : ℕ
  pub current_bw : D
  pub average_bw : D
  pub peak_bw : D
  pub throttle_events : ℕ
  pub reenable_events : ℕ
  pub prefetch_requests : ℕ
  pub prefetch_hits : ℕ

module _ (d : Doubles) where
  -- BwGovernorInit, when the pool is allocated; gBwGov is NULL before.
  unfoldable pub governor_init : ℕ → d.Double → Governor d.Double
  governor_init max_threads peak = record {
    state = normal;
    max_threads = max_threads;
    active_threads = max_threads;
    transactions = 0;
    total_transactions = 0;
    window_count = 0;
    current_bw = d.of_nat 0;
    average_bw = d.of_nat 0;
    peak_bw = if d.less (d.of_nat 0) peak then peak else d.of_nat 64;
    throttle_events = 0;
    reenable_events = 0;
    prefetch_requests = 0;
    prefetch_hits = 0;
  }

  -- BwGovernorRegisterTransaction
  unfoldable pub register_transaction : Governor d.Double → ℕ → Governor d.Double
  register_transaction g count = record g {
    transactions = add64 g.transactions count;
    total_transactions = add64 g.total_transactions count;
  }

  -- BwGovernorV71RegisterDboPrefetch
  unfoldable pub register_prefetch : Governor d.Double → ℕ → ℕ → Governor d.Double
  register_prefetch g requests hits = record g {
    prefetch_requests = add64 g.prefetch_requests requests;
    prefetch_hits = add64 g.prefetch_hits hits;
  }

  -- (UINT32)(MaxThreads * (1.0 - BW_DESCHEDULE_FRACTION))
  abbrev pub reduced_threads : ℕ → ℕ
  reduced_threads n = d.truncate (d.mul (d.of_nat n) (d.sub (d.of_nat 1) (d.hundredths 25)))

  -- The utilisation that BwGovernorProcessWindow computes.
  abbrev pub utilization : Governor d.Double → d.Double
  utilization g = d.div (d.mul (d.of_nat g.transactions) (d.hundredths 15)) g.peak_bw

  -- utilization >= BW_THROTTLE_THRESHOLD and utilization <= BW_REENABLE_THRESHOLD
  abbrev pub is_high : Governor d.Double → Bool
  is_high g = d.at_most (d.hundredths 85) (utilization g)

  abbrev pub is_low : Governor d.Double → Bool
  is_low g = d.at_most (utilization g) (d.hundredths 60)

  -- The transitions for a high and for a low utilisation.
  unfoldable pub throttle : Governor d.Double → BwState → Governor d.Double
  throttle g normal = record g {
    state = throttled;
    active_threads = reduced_threads g.max_threads;
    throttle_events = inc64 g.throttle_events;
  }
  throttle g throttled = record g {
    state = severe;
    active_threads = g.max_threads / 2;
    throttle_events = inc64 g.throttle_events;
  }
  throttle g severe = g

  unfoldable pub reenable : Governor d.Double → BwState → Governor d.Double
  reenable g severe = record g {
    state = throttled;
    active_threads = reduced_threads g.max_threads;
    reenable_events = inc64 g.reenable_events;
  }
  reenable g throttled = record g {
    state = normal;
    active_threads = g.max_threads;
    reenable_events = inc64 g.reenable_events;
  }
  reenable g normal = g

  -- The counters and averages of a window.
  abbrev pub measure : Governor d.Double → Governor d.Double
  measure g =
      let bw = d.mul (d.of_nat g.transactions) (d.hundredths 15) in
      record g {
        window_count = inc64 g.window_count;
        current_bw = bw;
        average_bw = d.add (d.mul g.average_bw (d.hundredths 90)) (d.mul bw (d.hundredths 10));
      }

  -- BwGovernorProcessWindow
  unfoldable pub process_window : Governor d.Double → Governor d.Double
  process_window g =
      let m = measure g in
      record (if is_high g
        then throttle m g.state
        else if is_low g
        then reenable m g.state
        else m) { transactions = 0 }

  -- BwGovernorGetActiveThreads and BwGovernorV71GetEffectiveThreads; `none` is a NULL governor.
  unfoldable pub get_active_threads : Option (Governor d.Double) → ℕ
  get_active_threads none = v71_max_threads
  get_active_threads (some g) = g.active_threads

  abbrev pub threads_in : Governor d.Double → BwState → ℕ
  threads_in g normal = g.max_threads
  threads_in g throttled = g.active_threads
  threads_in g severe = g.active_threads

  unfoldable pub get_effective_threads : Option (Governor d.Double) → ℕ
  get_effective_threads none = v71_max_threads
  get_effective_threads (some g) = threads_in g g.state

  -- BwGovernorGetState
  unfoldable pub get_state : Option (Governor d.Double) → BwState
  get_state none = normal
  get_state (some g) = g.state
