-- ===== src/SmmHandler/Latency.antt =====
-- The latency statistics over a series of system management interrupts.
use bemi_bios.Prelude.{
  ℕ, ◌+◌, ◌/◌, ◌%◌, ◌^◌, ◌≤◌, ◌<◌, ◌≡◌, ◌↔◌, ◌⊎◌, refl, sym, ◌∙◌, false, Option, none, some, List,
  [], ◌∷◌, length, ltb, ◌==◌, if◌then◌else◌, inc64, sub64, arith,
}
use bemi_bios.Efi.{success}
use bemi_bios.SmmHandler.{Smm, smm_latency_budget_us, smm_init, save_state, restore_state, validate}

-- One interrupt: the state is saved at `enter` and restored at `leave`.
pub record Smi : Type 0 where
  pub enter : ℕ
  pub leave : ℕ

abbrev pub service : Smm → Smi → Option Smm
service s smi = elim (restore_state (save_state s smi.enter).1 smi.leave) [
  | none ↦ none
  | some (_, s') ↦ some s'
]

pub service_all : Smm → List Smi → Option Smm
service_all s [] = some s
service_all s (smi ∷ rest) = elim (service s smi) [ none ↦ none | some s' ↦ service_all s' rest ]

-- Independently of the handler: how long an interrupt lasted at 2.5 GHz, the longest, and how many
-- were over the budget.
abbrev pub duration_us : Smi → ℕ
duration_us smi = sub64 smi.leave smi.enter / 2500

unfoldable pub longest_us : List Smi → ℕ
longest_us [] = 0
longest_us (smi ∷ rest) =
    let most = longest_us rest in if ltb most (duration_us smi) then duration_us smi else most

unfoldable pub over_budget : List Smi → ℕ
over_budget [] = 0
over_budget (smi ∷ rest) =
    if ltb smm_latency_budget_us (duration_us smi) then 1 + over_budget rest else over_budget rest

-- The state after one interrupt, for the clock that SmmHandlerInit sets.
abbrev pub Served : Smm → Smi → Smm → Type 0
Served s smi s' =
    (s'.stats.tsc_frequency ≡ 2500000000)
    × (s'.active ≡ false)
    × (s'.stats.total_smi_count ≡ inc64 s.stats.total_smi_count)
    × (s'.stats.max_latency_us ≡ (
        if ltb s.stats.max_latency_us (duration_us smi)
        then duration_us smi
        else s.stats.max_latency_us))
    × (s'.stats.budget_violations ≡ (
        if ltb smm_latency_budget_us (duration_us smi)
        then inc64 s.stats.budget_violations
        else s.stats.budget_violations))

service-Served :
    (s : Smm) (smi : Smi)
    → s.stats.tsc_frequency ≡ 2500000000
    → (s' : Smm) × (service s smi ≡ some s') × Served s smi s'
unfolding save_state restore_state
service-Served s smi h =
    let ticks : s.stats.tsc_frequency / 1000000 ≡ 2500 = rw h refl in
    let alive : (s.stats.tsc_frequency / 1000000 == 0) ≡ false = rw ticks refl in
    rw (service, restore_state, alive) (_, refl, (h, refl, refl, rw ticks refl, rw ticks refl))

-- What a series of interrupts leaves, from any state with the clock of SmmHandlerInit.
abbrev pub Recorded : Smm → List Smi → Smm → Type 0
Recorded s smis s' =
    (s.stats.total_smi_count < 2 ^ 64
      → s'.stats.total_smi_count ≡ (s.stats.total_smi_count + length smis) % 2 ^ 64)
    × ((s.stats.max_latency_us ≤ s'.stats.max_latency_us)
        × (longest_us smis ≤ s'.stats.max_latency_us)
        × ((s'.stats.max_latency_us ≡ s.stats.max_latency_us)
            ⊎ (s'.stats.max_latency_us ≡ longest_us smis)))
    × (s.stats.budget_violations < 2 ^ 64
        → s'.stats.budget_violations ≡ (s.stats.budget_violations + over_budget smis) % 2 ^ 64)

service_all-some :
    (s s₁ : Smm) (smi : Smi) (rest : List Smi)
    → service s smi ≡ some s₁
    → service_all s (smi ∷ rest) ≡ service_all s₁ rest
unfolding service_all
service_all-some s s₁ smi rest e = rw (service_all, e) refl

service_all-Recorded :
    (s : Smm) (smis : List Smi)
    → s.stats.tsc_frequency ≡ 2500000000
    → (s' : Smm) × (service_all s smis ≡ some s') × Recorded s smis s'
unfolding service_all longest_us over_budget
service_all-Recorded s [] h = (s, refl, (λ lt. ground arith, ground arith, λ lt. ground arith))
service_all-Recorded s (smi ∷ rest) h =
    let (s₁, e, (clock, _, total, most, over)) = service-Served s smi h in
    let (s₂, all, (total', (above, longest, either), over')) = service_all-Recorded s₁ rest clock in
    (
      s₂,
      service_all-some s s₁ smi rest e ∙ all,
      (
        λ lt. ground (arith, total' (ground arith)),
        ground arith,
        λ lt. ground (arith, over' (ground arith)),
      ),
    )

over_budget_bound : (smis : List Smi) → over_budget smis ≤ length smis
unfolding over_budget
over_budget_bound [] = omega arith
over_budget_bound (smi ∷ rest) = ground (arith, over_budget_bound rest)

over_budget_iff :
    (smis : List Smi)
    → (over_budget smis ≡ 0 → longest_us smis ≤ smm_latency_budget_us)
      × (longest_us smis ≤ smm_latency_budget_us → over_budget smis ≡ 0)
unfolding over_budget longest_us
over_budget_iff [] = (λ h. omega arith, λ h. refl)
over_budget_iff (smi ∷ rest) =
    let (there, back) = over_budget_iff rest in
    (λ h. ground (arith, there), λ h. ground (arith, back))

validate_iff :
    (s : Smm)
    → (validate s ≡ success → s.stats.budget_violations ≡ 0)
      × (s.stats.budget_violations ≡ 0 → validate s ≡ success)
unfolding validate
validate_iff s = (λ h. ground arith, λ h. ground arith)

-- After the initialisation, any series of fewer than 2 ^ 64 interrupts is served without a divide
-- error, and the statistics are exactly its number, its longest duration in microseconds and the
-- number of those over 100; SmmHandlerValidate then succeeds exactly if the longest is within 100.
pub smm_init-service_all :
    (s : Smm) (base size : ℕ) (smis : List Smi)
    → length smis < 2 ^ 64
    → (s' : Smm) × (service_all (smm_init s base size).1 smis ≡ some s')
      × (s'.stats.total_smi_count ≡ length smis)
      × (s'.stats.max_latency_us ≡ longest_us smis)
      × (s'.stats.budget_violations ≡ over_budget smis)
      × ((validate s' ≡ success) ↔ (longest_us smis ≤ smm_latency_budget_us))
unfolding smm_init
smm_init-service_all s base size smis few =
    let first = (smm_init s base size).1 in
    let (s', all, (total, (above, longest, either), over)) = service_all-Recorded first smis refl in
    let few_over = over_budget_bound smis in
    let (there, back) = over_budget_iff smis in
    let counted : s'.stats.budget_violations ≡ over_budget smis =
      over (omega arith) ∙ omega (arith, few_over, few) in
    (
      s',
      all,
      total (omega arith) ∙ omega (arith, few),
      ground (arith, longest, either),
      counted,
      (
        λ h. there (sym counted ∙ (validate_iff s').0 h),
        λ h. (validate_iff s').1 (counted ∙ back h),
      ),
    )
