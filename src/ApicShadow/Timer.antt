-- ===== src/ApicShadow/Timer.antt =====
-- The timer: how many ticks pass until it expires, and what is left then.
use bemi_bios.Prelude.{
  ℕ, zero, suc, ◌+◌, ◌%◌, ◌^◌, ◌<◌, ◌≡◌, refl, ap, ◌∙◌, true, false, leb, if◌then◌else◌, dec32,
  arith, lt→ltb,
}
use bemi_bios.ApicShadow.{Apic, bit_is_set, inject, write_reg, expire, timer_tick}

unfoldable pub ticks : Apic → ℕ → Apic
ticks s zero = s
ticks s (suc n) = ticks (timer_tick s) n

abbrev running : Apic → ℕ → Apic
running s n = record s { timer_enabled = true; timer_current = n }

tick_down :
    (s : Apic) (n m : ℕ) → n ≡ suc m → 0 < m → n < 2 ^ 32 → timer_tick (running s n) ≡ running s m
unfolding timer_tick
tick_down s n m e pos h = let down : dec32 n ≡ m = omega arith in rw down (ground arith)

tick_last : (s : Apic) → timer_tick (running s 1) ≡ expire (running s 0)
unfolding timer_tick
tick_last s = refl

ticks_down :
    (k : ℕ) (s : Apic) (n m : ℕ)
    → n ≡ k + m
    → 0 < m
    → n < 2 ^ 32
    → ticks (running s n) k ≡ running s m
unfolding ticks
ticks_down zero s n m e pos h = let same : n ≡ m = omega arith in rw same refl
ticks_down (suc k) s n m e pos h =
    rw (tick_down s n (k + m) (omega arith) (omega arith) h)
      (ticks_down k s (k + m) m refl pos (omega arith))

ticks_last :
    (k : ℕ) (s : Apic) (n : ℕ)
    → n ≡ suc k
    → n < 2 ^ 32
    → ticks (running s n) (suc k) ≡ expire (running s 0)
unfolding ticks
ticks_last zero s n e h = rw e (tick_last s)
ticks_last (suc k) s n e h =
    rw (tick_down s n (suc k) e (omega arith) h) (ticks_last k s (suc k) refl (omega arith))

-- A timer that runs with n counts to go has m left after n - m ticks, its other state unchanged, and
-- expires at the n-th.
pub ticks-running :
    (s : Apic) (n : ℕ)
    → 0 < n
    → n < 2 ^ 32
    → ((k m : ℕ) → n ≡ k + m → 0 < m → ticks (running s n) k ≡ running s m)
      × (ticks (running s n) n ≡ expire (running s 0))
ticks-running s zero pos h = absurd (omega arith)
ticks-running s (suc n) pos h =
    (λ k m e p. ticks_down k s (suc n) m e p h, ticks_last n s (suc n) refl h)

expire_lem :
    (s : Apic)
    → let vector = s.timer_lvt % 256 in
      ((expire s).regs ≡ (if leb 16 vector then (inject s vector).1 else s).regs)
      × ((bit_is_set s.timer_lvt 17 ≡ true
            → ((expire s).timer_enabled ≡ s.timer_enabled)
              × ((expire s).timer_current ≡ s.timer_initial))
          × (bit_is_set s.timer_lvt 17 ≡ false → (expire s).timer_enabled ≡ false))
unfolding expire inject
expire_lem s = (ground arith, (λ e. (ground arith, ground arith), λ e. ground arith))

same_requests :
    (s t : Apic) (vector : ℕ)
    → s.regs ≡ t.regs
    → (if leb 16 vector then (inject s vector).1 else s).regs
      ≡ (if leb 16 vector then (inject t vector).1 else t).regs
unfolding inject
same_requests s t vector e = ground arith

-- A write of a count that is neither 0 nor above 32 bits to the initial count register, with the
-- timer unmasked, starts a timer that expires after exactly that many ticks. At each tick before, it
-- runs with one count less and no register changes. At the last it has the vector of the LVT requested,
-- if that is 16 or more, and runs again from the same count if it is periodic, and is off otherwise.
pub ticks-write_reg :
    (msb : ℕ → ℕ) (s : Apic) (n : ℕ)
    → 0 < n
    → n < 2 ^ 32
    → bit_is_set s.timer_lvt 16 ≡ false
    → let started = write_reg msb s 0x380 n in
      let vector = s.timer_lvt % 256 in
      let after = ticks started n in
      ((k m : ℕ)
        → n ≡ k + m
        → 0 < m
        → let t = ticks started k in
          (t.regs ≡ started.regs) × (t.timer_enabled ≡ true) × (t.timer_current ≡ m))
      × (after.regs ≡ (if leb 16 vector then (inject started vector).1 else started).regs)
      × ((bit_is_set s.timer_lvt 17 ≡ true
            → (after.timer_enabled ≡ true) × (after.timer_current ≡ n))
          × (bit_is_set s.timer_lvt 17 ≡ false → after.timer_enabled ≡ false))
unfolding write_reg
ticks-write_reg msb s n pos h unmasked =
    let started = write_reg msb s 0x380 n in
    let on : started ≡ running started n = rw (lt→ltb 0 n pos, unmasked) refl in
    let (before, last) = ticks-running started n pos h in
    let done : ticks started n ≡ expire (running started 0) = ap (λ x. ticks x n) on ∙ last in
    let (regs, rest) = expire_lem (running started 0) in
    (
      λ k m e p.
          let down : ticks started k ≡ running started m =
            ap (λ x. ticks x k) on ∙ before k m e p in
          rw down (refl, refl, refl),
      rw done (regs ∙ same_requests (running started 0) started (s.timer_lvt % 256) refl),
      rw done rest,
    )
