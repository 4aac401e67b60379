-- ===== src/Drivers/Timer.antt =====
-- drivers/timer.c: the count of ticks, and a sleep that waits for them.
use vaelen.Prelude.{
  ℕ, zero, suc, ◌+◌, ◌*◌, ◌/◌, ◌%◌, ◌^◌, ◌<◌, ◌≤◌, ◌≡◌, refl, ap, ◌∙◌, Bool, false, ltb,
  if◌then◌else◌, Option, none, some, arith, lt→ltb,
}

-- `timer_ticks` and `timer_frequency`.
pub record Timer : Type 0 where
  pub timer_ticks : ℕ
  pub timer_frequency : ℕ

abbrev pub get_ticks : Timer → ℕ
get_ticks s = s.timer_ticks

-- What `timer_init` stores; its port writes are with the interrupts.
abbrev pub set_frequency : ℕ → Timer → Timer
set_frequency frequency s = record s { timer_frequency = frequency }

abbrev pub sleep_target : ℕ → Timer → ℕ
sleep_target ms s = (s.timer_ticks + ms * s.timer_frequency % 2 ^ 32 / 1000) % 2 ^ 32

-- The loop of `timer_sleep`, where `interrupts` more interrupts of the timer will come, each of which
-- counts one tick; none means that it waits for another one.
unfoldable pub wait_until : ℕ → ℕ → Timer → Option Timer
wait_until target zero s = if ltb s.timer_ticks target then none else some s
wait_until target (suc interrupts) s =
    let rest =
      wait_until target interrupts (record s { timer_ticks = (s.timer_ticks + 1) % 2 ^ 32 }) in
    if ltb s.timer_ticks target then rest else some s

unfoldable pub timer_sleep : ℕ → ℕ → Timer → Option Timer
unfolding wait_until
timer_sleep ms interrupts s = wait_until (sleep_target ms s) interrupts s

abbrev pub at_tick : ℕ → Timer → Timer
at_tick n s = record s { timer_ticks = n }

passed : (a b : ℕ) → b ≤ a → ltb a b ≡ false
passed a b h = ground arith

wait_until-done :
    (interrupts target : ℕ) (s : Timer)
    → target ≤ s.timer_ticks
    → wait_until target interrupts s ≡ some s
unfolding wait_until
wait_until-done zero target s h =
    ap (λ (more : Bool). if more then none else some s) (passed s.timer_ticks target h)
wait_until-done (suc interrupts) target s h =
    ap
      (λ (more : Bool).
        if more
        then wait_until target interrupts (at_tick ((s.timer_ticks + 1) % 2 ^ 32) s)
        else some s)
      (passed s.timer_ticks target h)

wait_until-reached :
    (n extra target : ℕ) (s : Timer)
    → s.timer_ticks + n ≡ target
    → target < 2 ^ 32
    → wait_until target (n + extra) s ≡ some (at_tick target s)
unfolding wait_until
wait_until-reached zero extra target s e small =
    ap (λ (rounds : ℕ). wait_until target rounds s) {x = 0 + extra} {y = extra} (omega arith)
    ∙ wait_until-done extra target s (omega arith)
    ∙ ap (λ (n : ℕ). some (at_tick n s)) (omega arith)
wait_until-reached (suc n) extra target s e small =
    ap (λ (rounds : ℕ). wait_until target rounds s) {x = suc n + extra} {y = suc (n + extra)}
      (omega arith)
    ∙ ap
        (λ (more : Bool).
          if more
          then wait_until target (n + extra) (at_tick ((s.timer_ticks + 1) % 2 ^ 32) s)
          else some s)
        (lt→ltb s.timer_ticks target (omega arith))
    ∙ wait_until-reached n extra target (at_tick ((s.timer_ticks + 1) % 2 ^ 32) s) (omega arith)
        small

-- A sleep of `ms` milliseconds, where neither the product nor the count of ticks wraps, ends with the
-- tick that it waits for, however many interrupts follow that one.
pub timer_sleep-reached :
    (ms extra : ℕ) (s : Timer)
    → ms * s.timer_frequency < 2 ^ 32
    → s.timer_ticks + ms * s.timer_frequency / 1000 < 2 ^ 32
    → timer_sleep ms (ms * s.timer_frequency / 1000 + extra) s
      ≡ some (at_tick (s.timer_ticks + ms * s.timer_frequency / 1000) s)
unfolding timer_sleep
timer_sleep-reached ms extra s product count =
    ap (λ (target : ℕ). wait_until target (ms * s.timer_frequency / 1000 + extra) s)
      (no_wrap s.timer_ticks (ms * s.timer_frequency) product count)
    ∙ wait_until-reached (ms * s.timer_frequency / 1000) extra _ s refl count
  where
    no_wrap :
        (ticks wait : ℕ)
        → wait < 2 ^ 32
        → ticks + wait / 1000 < 2 ^ 32
        → (ticks + wait % 2 ^ 32 / 1000) % 2 ^ 32 ≡ ticks + wait / 1000
    no_wrap ticks wait h₁ h₂ = omega arith
