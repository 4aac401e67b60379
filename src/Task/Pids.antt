-- ===== src/Task/Pids.antt =====
-- Pids are unique, and `task_count` is the number of tasks.
use vaelen.Prelude.{
  ℕ, ◌+◌, ◌^◌, ◌<◌, ◌≤◌, ◌≡◌, refl, ap₂, subst, ◌∙◌, Option, none, some, List, [], ◌∷◌, map, arith,
  ◌==◌, length, Bool-cases, inl, inr,
}
use vaelen.Mm.Heap.{Ptr, null}
use vaelen.Task.{
  Task, zombie, sleeping, Tasks, Fresh, runs, create, fork, fork_from, child_of, new_task, enlist,
  exit, yield_task, sleep, wake, timer_handler, tick, switch_to, resume, schedule, leave, on_tasks,
  at_task, find_task, pick,
}
use vaelen.Task.Steps.{
  Step, created, forked, exited, yielded, slept, woken, interrupted, Reach, start, next,
}
use vaelen.Task.Single.{runs-injective}

abbrev pub pids : Tasks → List ℕ
pids s = map (λ t. t.pid) s.task_list

-- Strictly falling numbers below a bound.
abbrev pub Descending : ℕ → List ℕ → Type 0
Descending bound [] = Unit
Descending bound (n ∷ ns) = (n < bound) × Descending n ns

-- The newest task has the highest pid, all are below the next one, and the tasks are counted.
pub record IsNumbered (s : Tasks) : Type 0 where
  pub falling : Descending s.next_pid (pids s)
  pub counted : s.task_count ≡ length (pids s)

length-Descending : (bound : ℕ) (ns : List ℕ) → Descending bound ns → length ns ≤ bound
length-Descending bound [] d = omega arith
length-Descending bound (n ∷ ns) d = omega (arith, length-Descending n ns d.1)

-- An operation that makes no task keeps every pid.
record KeepsPids (s s' : Tasks) : Type 0 where
  same : pids s' ≡ pids s
  bound : s'.next_pid ≡ s.next_pid
  count : s'.task_count ≡ s.task_count

KeepsPids-trans : (s t u : Tasks) → KeepsPids s t → KeepsPids t u → KeepsPids s u
KeepsPids-trans s t u k l = record {
  same = l.same ∙ k.same;
  bound = l.bound ∙ k.bound;
  count = l.count ∙ k.count;
}

map-pid :
    (f : Task → Task) (ts : List Task)
    → ((t : Task) → (f t).pid ≡ t.pid)
    → map (λ (t : Task). t.pid) (map f ts) ≡ map (λ (t : Task). t.pid) ts
map-pid f [] h = refl
map-pid f (t ∷ ts) h = ap₂ ◌∷◌ (h t) (map-pid f ts h)

on_tasks-KeepsPids :
    (f : Task → Task) (s : Tasks) → ((t : Task) → (f t).pid ≡ t.pid) → KeepsPids s (on_tasks f s)
on_tasks-KeepsPids f s h = record { same = map-pid f s.task_list h; bound = refl; count = refl }

tick-pid : (t : Task) → (tick t).pid ≡ t.pid
unfolding tick
tick-pid t = ground arith

switch_to-KeepsPids : (p : Ptr) (s : Tasks) → KeepsPids s (switch_to p s)
unfolding switch_to
switch_to-KeepsPids p s = elim (Bool-cases (p == s.current_task)) [
  | inl same ↦ rw same (record { same = refl; bound = refl; count = refl })
  | inr other ↦
      rw other
        (record { same = map-pid _ s.task_list (λ t. ground arith); bound = refl; count = refl })
]

resume-KeepsPids : (s s' : Tasks) (o : Option Task) → resume s o ≡ runs s' → KeepsPids s s'
unfolding resume
resume-KeepsPids s s' none e = elim (Bool-cases (s.idle_task == null)) [
  | inl no_idle ↦ absurd (cc (rw no_idle at e))
  | inr idle ↦
      subst (KeepsPids s) (runs-injective (rw idle at e)) (switch_to-KeepsPids s.idle_task s)
]
resume-KeepsPids s s' (some t) e =
    subst (KeepsPids s) (runs-injective e) (switch_to-KeepsPids t.address s)

schedule-KeepsPids : (s s' : Tasks) → schedule s ≡ runs s' → KeepsPids s s'
unfolding schedule
schedule-KeepsPids s s' e =
    KeepsPids-trans s (on_tasks tick s) s' (on_tasks-KeepsPids tick s tick-pid)
      (resume-KeepsPids (on_tasks tick s) s' (pick s.task_list none) e)

leave-KeepsPids :
    (s s' : Tasks) (f : Task → Task)
    → ((t : Task) → (f t).pid ≡ t.pid)
    → leave f s ≡ runs s'
    → KeepsPids s s'
leave-KeepsPids s s' f h e = elim (Bool-cases (s.current_task == null)) [
  | inl no_task ↦
      subst (KeepsPids s) (runs-injective (rw no_task at e))
        (record { same = refl; bound = refl; count = refl })
  | inr task ↦
      KeepsPids-trans s (on_tasks (at_task s.current_task f) s) s'
        (on_tasks-KeepsPids (at_task s.current_task f) s (λ t. ground (arith, h t)))
        (schedule-KeepsPids (on_tasks (at_task s.current_task f) s) s' (rw task at e))
]

KeepsPids-IsNumbered : (s s' : Tasks) → KeepsPids s s' → IsNumbered s → IsNumbered s'
KeepsPids-IsNumbered s s' k ok = record {
  falling = rw (k.same, k.bound) ok.falling;
  counted = rw (k.same, k.count) ok.counted;
}

-- A new task in front takes the next pid.
enlist-IsNumbered :
    (s : Tasks) (t : Task)
    → t.pid ≡ s.next_pid
    → s.next_pid + 1 < 2 ^ 32
    → IsNumbered s
    → IsNumbered (enlist s t)
enlist-IsNumbered s t e room ok =
    let few = length-Descending s.next_pid (pids s) ok.falling in
    record { falling = (omega arith, rw e ok.falling); counted = omega (arith, ok.counted, few) }

fork-IsNumbered :
    (s : Tasks) (new : Fresh) → s.next_pid + 1 < 2 ^ 32 → IsNumbered s → IsNumbered (fork s new).1
unfolding fork
fork-IsNumbered s new room ok = elim (Bool-cases (s.current_task == null)) [
  | inl no_task ↦ rw no_task ok
  | inr task ↦ rw task (from (find_task s.current_task s.task_list))
]
  where
    from : (o : Option Task) → IsNumbered (fork_from s new o).1
    from none = ok
    from (some t) = enlist-IsNumbered s (child_of s new t) refl room ok

pub Step-IsNumbered : (s s' : Tasks) → Step s s' → IsNumbered s → IsNumbered s'
unfolding create exit yield_task sleep wake timer_handler
Step-IsNumbered s s' (created new name entry priority ne room e) ok =
    rw e (enlist-IsNumbered s (new_task s new name entry priority) refl room ok)
Step-IsNumbered s s' (forked new ne room e) ok = rw e (fork-IsNumbered s new room ok)
Step-IsNumbered s s' (exited code e) ok =
    KeepsPids-IsNumbered s s'
      (leave-KeepsPids s s' (λ t. record t { state = zombie; exit_code = code }) (λ t. refl) e) ok
Step-IsNumbered s s' (yielded e) ok = KeepsPids-IsNumbered s s' (schedule-KeepsPids s s' e) ok
Step-IsNumbered s s' (slept ticks e) ok =
    KeepsPids-IsNumbered s s'
      (leave-KeepsPids s s' (λ t. record t { sleep_ticks = ticks; state = sleeping }) (λ t. refl) e)
      ok
Step-IsNumbered s s' (woken p e) ok =
    rw e (KeepsPids-IsNumbered s _ (on_tasks-KeepsPids _ s (λ t. ground arith)) ok)
Step-IsNumbered s s' (interrupted n e) ok =
    rw e (KeepsPids-IsNumbered s _ (on_tasks-KeepsPids tick s tick-pid) ok)

-- In every state that calls and interrupts lead to, while pids have not run out, the pids fall
-- strictly along the task list, so no two tasks share one, all are below the next pid, and
-- `task_count` is the number of tasks.
pub Reach-IsNumbered : {s s' : Tasks} → Reach s s' → IsNumbered s → IsNumbered s'
Reach-IsNumbered start ok = ok
Reach-IsNumbered (next {t} {u} r st) ok = Step-IsNumbered t u st (Reach-IsNumbered r ok)

pub set_brk-IsNumbered :
    (s : Tasks) (p : Ptr) (addr : ℕ)
    → IsNumbered s
    → IsNumbered (on_tasks (at_task p (λ t. record t { brk = addr })) s)
set_brk-IsNumbered s p addr ok =
    KeepsPids-IsNumbered s _ (on_tasks-KeepsPids _ s (λ t. ground arith)) ok
