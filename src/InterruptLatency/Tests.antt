-- ===== src/InterruptLatency/Tests.antt =====
-- The interrupt queue at concrete times.
use bemi_bios.Prelude.{◌≡◌, refl, [], ◌∷◌, arith}
use bemi_bios.InterruptLatency.{
  max_interrupt_vectors, Interrupts, latency_init, register_handler, is_free, find_event, find_slot,
  trigger,
}
use bemi_bios.InterruptLatency.Queue.{First}
use bemi_bios.InterruptLatency.Latencies.{
  Idle, registers, triggers, delivers, posts, run, Dominated, run-Dominated,
}

abbrev handled : Interrupts
handled = (register_handler latency_init 0x20 0xFFFF0000).1

-- Two triggers within the window make one event.
twice_coalesces : (trigger (trigger latency_init 1000 0x20) 1050 0x20).coalesced ≡ 1
unfolding trigger find_slot find_event
twice_coalesces = refl

handled-Idle : Idle handled 0x20
unfolding register_handler
handled-Idle j lt = ground arith

handled-First : First is_free handled.events 0 max_interrupt_vectors 0
unfolding register_handler
handled-First = (omega arith, omega arith, refl, λ j lo hi. absurd (omega arith))

run-Dominated_example : Dominated (
    run latency_init
      (registers 0x20 0xFFFF0000 ∷ triggers 1000 0x20 ∷ delivers 1007 0x20 ∷ posts 0xFE ∷ []))
run-Dominated_example =
    run-Dominated
      (registers 0x20 0xFFFF0000 ∷ triggers 1000 0x20 ∷ delivers 1007 0x20 ∷ posts 0xFE ∷ [])
