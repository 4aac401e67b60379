-- ===== src/Task/Sleep.antt =====
-- How long a task sleeps: `task_sleep` of kernel/task.c, and what counts the sleep down, which is
-- `task_schedule` there and `timer_handler` of drivers/timer.c.
mod Countdown
use mathlib.Core.Option
use vaelen.Prelude.{
  ℕ, zero, suc, ◌+◌, ◌-◌, ◌<◌, ◌≡◌, ◌≢◌, refl, ap, subst, sym, ◌∙◌, Bool, if◌then◌else◌, Option,
  none, some, List, [], ◌∷◌, ◌++◌, map, All, arith, ◌==◌, ==_differ, ==_same, ==_iff, Bool-cases,
  inl, inr,
}
use vaelen.Mm.Heap.{Ptr, null}
use vaelen.Task.{
  Task, TaskState, sleeping, ready, running, Tasks, runs, timer_handler, tick, find_task, schedule,
  resume, switch_to, on_tasks, at_task, to_state, demote_at, sleep, pick, Outcome,
}
use vaelen.Task.Steps.{All-map}
use vaelen.Task.Single.{runs-injective}
use vaelen.Task.Pick.{IsBest, pick-IsBest}
use vaelen.Task.Sleep.Countdown.{
  sleeper_state, Sleeps, Asleep, find_task-map, find_task-Sleeps, ticks-Asleep, schedule-Asleep,
}

-- From one state to another by that many rounds of the countdown: a round is a timer interrupt, or
-- a `task_schedule` that returns.
pub data Rounds (s : Tasks) : ℕ → Tasks → Type 0 where
  no_round : Rounds s 0 s
  interrupted :
      {n : ℕ} {t u : Tasks} (timer_ticks : ℕ)
      → Rounds s n t
      → u ≡ (timer_handler (timer_ticks, t)).1
      → Rounds s (suc n) u
  rescheduled : {n : ℕ} {t u : Tasks} → Rounds s n t → schedule t ≡ runs u → Rounds s (suc n) u

Rounds-Asleep :
    (p : Ptr) (n left : ℕ) (s u : Tasks) → Asleep p (n + left) s → Rounds s n u → Asleep p left u
unfolding timer_handler
Rounds-Asleep p zero left s u ok no_round = subst (λ k. Asleep p k s) (omega arith) ok
Rounds-Asleep p (suc n) left s u ok (interrupted timer_ticks rounds e) =
    subst (Asleep p left) (sym e) (
      ticks-Asleep p left _
        (Rounds-Asleep p n (suc left) s _ (subst (λ k. Asleep p k s) (omega arith) ok) rounds))
Rounds-Asleep p (suc n) left s u ok (rescheduled rounds e) =
    schedule-Asleep p left _ u
      (Rounds-Asleep p n (suc left) s _ (subst (λ k. Asleep p k s) (omega arith) ok) rounds) e

abbrev lie_down : ℕ → Task → Task
lie_down ticks t = record t { sleep_ticks = ticks; state = sleeping }

-- What `task_sleep` writes, to the current task.
module _ (s : Tasks) (ticks : ℕ) (pos : 0 < ticks) where
  abbrev lain : Task → Task
  lain = at_task s.current_task (lie_down ticks)

  lain-address : (t : Task) → (lain t).address ≡ t.address
  lain-address t = ground arith

  lain-Sleeps : (t : Task) → Sleeps s.current_task ticks (lain t)
  lain-Sleeps t = λ e. ground arith

  lain-Asleep :
      (t : Task)
      → s.idle_task ≡ null
      → find_task s.current_task s.task_list ≡ some t
      → Asleep s.current_task ticks (on_tasks lain s)
  lain-Asleep t no_idle found = record {
    no_idle = no_idle;
    listed = (
      lain t,
      find_task-map s.current_task lain s.task_list lain-address ∙ ap (Option.map lain) found,
    );
    sleepers = everywhere s.task_list;
  }
    where
      everywhere : (ts : List Task) → All (Sleeps s.current_task ticks) (map lain ts)
      everywhere [] = tt
      everywhere (t ∷ ts) = (lain-Sleeps t, everywhere ts)

module _ (s s' : Tasks) (ticks : ℕ) (t : Task) (current : s.current_task ≢ null)
    (no_idle : s.idle_task ≡ null) (found : find_task s.current_task s.task_list ≡ some t)
    (slept : sleep ticks s ≡ runs s') where
  -- When the current task sleeps for `ticks` ticks, there is no idle task, and `task_sleep` switches
  -- to another task, then the `task_schedule` in it is the first round of the countdown, and each
  -- timer interrupt and each later `task_schedule` is another: after `n` more of them, in any order,
  -- up to `ticks` in all, the task has `ticks - (n + 1)` ticks left; it still sleeps where that is
  -- not 0, and is ready where it is. So a sleep of one tick is over before the next interrupt.
  pub sleep-Rounds :
      (n : ℕ) (u : Tasks)
      → n < ticks
      → Rounds s' n u
      → (t' : Task) × (find_task s.current_task u.task_list ≡ some t')
        × (t'.sleep_ticks ≡ ticks - suc n)
        × (t'.state ≡ (if ticks == suc n then ready else sleeping))
  unfolding sleep
  sleep-Rounds n u early rounds =
      let p = s.current_task in
      let laid = on_tasks (at_task p (lie_down ticks)) s in
      let lain = lain-Asleep s ticks (omega arith) t no_idle found in
      let switched =
        schedule-Asleep p (ticks - 1) laid s' (subst (λ k. Asleep p k laid) (omega arith) lain)
          (sym (ap lies (==_differ p null current)) ∙ slept) in
      let ended =
        Rounds-Asleep p n (ticks - suc n) s' u
          (subst (λ k. Asleep p k s') (count ticks n early) switched) rounds in
      let (t', listed) = ended.listed in
      let (state, left) = find_task-Sleeps p (ticks - suc n) u.task_list t' listed ended.sleepers in
      (
        t',
        listed,
        left,
        state ∙ ap (λ (b : Bool). if b then ready else sleeping) (last ticks n early),
      )
    where
      lies : Bool → Outcome
      lies b = if b then runs s else schedule (on_tasks (at_task s.current_task (lie_down ticks)) s)

      count : (a b : ℕ) → b < a → a - 1 ≡ b + (a - suc b)
      count a b h = omega arith

      last : (a b : ℕ) → b < a → (a - suc b == 0) ≡ (a == suc b)
      last a b h = ground arith
