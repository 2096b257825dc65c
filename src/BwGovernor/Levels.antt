-- ===== src/BwGovernor/Levels.antt =====
-- The governor's states as three levels.
use bemi_bios.Prelude.{
  ℕ, ◌+◌, ◌-◌, ◌/◌, ◌%◌, ◌^◌, ◌≡◌, refl, ap, sym, ◌∙◌, Bool, true, false, List, [], ◌∷◌, some,
  if◌then◌else◌, ltb, arith,
}
use bemi_bios.Doubles.{Doubles}
use bemi_bios.BwGovernor.{
  BwState, normal, throttled, severe, Governor, governor_init, register_transaction,
  register_prefetch, reduced_threads, is_high, is_low, measure, throttle, reenable, process_window,
  threads_in, get_active_threads, get_effective_threads,
}

abbrev pub level : BwState → ℕ
level normal = 0
level throttled = 1
level severe = 2

-- The threads that belong to a level.
abbrev pub threads_of : (d : Doubles) → ℕ → BwState → ℕ
threads_of d max_threads normal = max_threads
threads_of d max_threads throttled = reduced_threads d max_threads
threads_of d max_threads severe = max_threads / 2

-- The number of threads is that of the state, and the throttle events are, modulo 2^64, the re-enable
-- events and the level.
unfoldable pub IsConsistent : (d : Doubles) → Governor d.Double → Type 0
IsConsistent d g =
    (g.active_threads ≡ threads_of d g.max_threads g.state)
    × (g.throttle_events % 2 ^ 64 ≡ (g.reenable_events + level g.state) % 2 ^ 64)

throttle-IsConsistent :
    (d : Doubles) (g : Governor d.Double) → IsConsistent d g → IsConsistent d (throttle d g g.state)
unfolding IsConsistent throttle
throttle-IsConsistent d g (threads, events) = at g.state refl threads events
  where
    at :
        (s : BwState)
        → g.state ≡ s
        → g.active_threads ≡ threads_of d g.max_threads s
        → g.throttle_events % 2 ^ 64 ≡ (g.reenable_events + level s) % 2 ^ 64
        → IsConsistent d (throttle d g s)
    at normal e t v = (refl, omega (arith, v))
    at throttled e t v = (refl, omega (arith, v))
    at severe e t v = (
      t ∙ sym (ap (threads_of d g.max_threads) e),
      v ∙ sym (ap (λ s. (g.reenable_events + level s) % 2 ^ 64) e),
    )

reenable-IsConsistent :
    (d : Doubles) (g : Governor d.Double) → IsConsistent d g → IsConsistent d (reenable d g g.state)
unfolding IsConsistent reenable
reenable-IsConsistent d g (threads, events) = at g.state refl threads events
  where
    at :
        (s : BwState)
        → g.state ≡ s
        → g.active_threads ≡ threads_of d g.max_threads s
        → g.throttle_events % 2 ^ 64 ≡ (g.reenable_events + level s) % 2 ^ 64
        → IsConsistent d (reenable d g s)
    at severe e t v = (refl, omega (arith, v))
    at throttled e t v = (refl, omega (arith, v))
    at normal e t v = (
      t ∙ sym (ap (threads_of d g.max_threads) e),
      v ∙ sym (ap (λ s. (g.reenable_events + level s) % 2 ^ 64) e),
    )

-- The state that a window leaves, by its utilisation.
unfoldable pub decide : (d : Doubles) → Governor d.Double → Bool → Bool → Governor d.Double
decide d g high low = if high then throttle d g g.state else if low then reenable d g g.state else g

decide-IsConsistent :
    (d : Doubles) (g : Governor d.Double) (high low : Bool)
    → IsConsistent d g
    → IsConsistent d (decide d g high low)
unfolding decide
decide-IsConsistent d g true low c = throttle-IsConsistent d g c
decide-IsConsistent d g false true c = reenable-IsConsistent d g c
decide-IsConsistent d g false false c = c

process_window-IsConsistent :
    (d : Doubles) (g : Governor d.Double) → IsConsistent d g → IsConsistent d (process_window d g)
unfolding process_window IsConsistent decide
process_window-IsConsistent d g c = decide-IsConsistent d (measure d g) (is_high d g) (is_low d g) c

-- The operations of the governor.
pub data GovernorStep : Type 0 where
  transactions_of : ℕ → GovernorStep
  prefetches_of : ℕ → ℕ → GovernorStep
  window : GovernorStep

unfoldable pub governor_step : (d : Doubles) → Governor d.Double → GovernorStep → Governor d.Double
governor_step d g (transactions_of n) = register_transaction d g n
governor_step d g (prefetches_of n hits) = register_prefetch d g n hits
governor_step d g window = process_window d g

unfoldable pub governor_run :
    (d : Doubles) → Governor d.Double → List GovernorStep → Governor d.Double
governor_run d g [] = g
governor_run d g (s ∷ ss) = governor_run d (governor_step d g s) ss

governor_step-IsConsistent :
    (d : Doubles) (g : Governor d.Double) (s : GovernorStep)
    → IsConsistent d g
    → IsConsistent d (governor_step d g s)
unfolding governor_step IsConsistent register_transaction register_prefetch
governor_step-IsConsistent d g (transactions_of n) c = c
governor_step-IsConsistent d g (prefetches_of n hits) c = c
governor_step-IsConsistent d g window c = process_window-IsConsistent d g c

run_from :
    (d : Doubles) (ss : List GovernorStep) (g : Governor d.Double)
    → IsConsistent d g
    → IsConsistent d (governor_run d g ss)
unfolding governor_run
run_from d [] g c = c
run_from d (s ∷ ss) g c = run_from d ss (governor_step d g s) (governor_step-IsConsistent d g s c)

effective-active :
    (d : Doubles) (g : Governor d.Double)
    → IsConsistent d g
    → get_effective_threads d (some g) ≡ get_active_threads d (some g)
unfolding IsConsistent get_effective_threads get_active_threads
effective-active d g (threads, _) = at g.state refl
  where
    at : (s : BwState) → g.state ≡ s → threads_in d g s ≡ g.active_threads
    at normal e = sym (threads ∙ ap (threads_of d g.max_threads) e)
    at throttled e = refl
    at severe e = refl

-- After BwGovernorInit and any transactions, prefetches and windows the number of active threads is
-- the one that belongs to the state, the throttle events are the re-enable events and the level of
-- the state (modulo 2^64), and the two functions that return the number of threads agree. This holds
-- whatever the arithmetic of doubles is.
pub governor_run-IsConsistent :
    (d : Doubles) (max_threads : ℕ) (peak : d.Double) (ss : List GovernorStep)
    → let g = governor_run d (governor_init d max_threads peak) ss in
      IsConsistent d g × (get_effective_threads d (some g) ≡ get_active_threads d (some g))
unfolding governor_init IsConsistent
governor_run-IsConsistent d max_threads peak ss =
    let g = governor_run d (governor_init d max_threads peak) ss in
    let c : IsConsistent d g = run_from d ss (governor_init d max_threads peak) (refl, refl) in
    (c, effective-active d g c)

throttle-level :
    (d : Doubles) (g : Governor d.Double) (s : BwState)
    → g.state ≡ s
    → level (throttle d g s).state ≡ (if ltb (level s) 2 then level s + 1 else level s)
unfolding throttle
throttle-level d g normal e = refl
throttle-level d g throttled e = refl
throttle-level d g severe e = ap level e

reenable-level :
    (d : Doubles) (g : Governor d.Double) (s : BwState)
    → g.state ≡ s
    → level (reenable d g s).state ≡ level s - 1
unfolding reenable
reenable-level d g severe e = refl
reenable-level d g throttled e = refl
reenable-level d g normal e = ap level e

decide-level :
    (d : Doubles) (g : Governor d.Double) (high low : Bool)
    → level (decide d g high low).state ≡ (
        if high
        then (if ltb (level g.state) 2 then level g.state + 1 else level g.state)
        else if low
        then level g.state - 1
        else level g.state)
unfolding decide
decide-level d g true low = throttle-level d g g.state refl
decide-level d g false true = reenable-level d g g.state refl
decide-level d g false false = refl

-- A window moves the state of the governor one level up, to at most the second, if its utilisation
-- reaches the throttle threshold, else one level down, if it is at most the re-enable threshold, and
-- leaves it between them; and the next window starts with no transactions.
pub process_window-level :
    (d : Doubles) (g : Governor d.Double)
    → (level (process_window d g).state ≡ (
        if is_high d g
        then (if ltb (level g.state) 2 then level g.state + 1 else level g.state)
        else if is_low d g
        then level g.state - 1
        else level g.state))
      × ((process_window d g).transactions ≡ 0)
unfolding process_window decide
process_window-level d g = (decide-level d (measure d g) (is_high d g) (is_low d g), refl)
