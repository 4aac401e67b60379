-- ===== src/Task/Single.antt =====
-- At most one task is marked as running, the current one.
use vaelen.Prelude.{
  ◌≡◌, ◌≢◌, refl, Option, none, some, arith, ◌==◌, if◌then◌else◌, All, Bool-cases, inl, inr, subst,
  sym, ◌∙◌,
}
use vaelen.Mm.Heap.{Ptr, null}
use vaelen.Task.{
  Task, running, ready, zombie, sleeping, Tasks, Fresh, runs, create, fork, fork_from, exit,
  yield_task, sleep, wake, timer_handler, tick, switch_to, resume, schedule, leave, on_tasks,
  at_task, to_state, demote_at, is_sleeping, find_task, pick,
}
use vaelen.Task.Steps.{
  Step, created, forked, exited, yielded, slept, woken, interrupted, Reach, start, next, All-map,
}

pub runs-injective : {s s' : Tasks} → runs s ≡ runs s' → s ≡ s'
runs-injective e = cc

-- A task that is marked as running is the current one, and no task is at the null address.
pub record RunsOnlyAt (c : Ptr) (t : Task) : Type 0 where
  pub current : t.state ≡ running → t.address ≡ c
  pub placed : t.address ≢ null

abbrev pub OnlyCurrentRuns : Tasks → Type 0
OnlyCurrentRuns s = All (RunsOnlyAt s.current_task) s.task_list

module _ (c : Ptr) where
  tick-RunsOnlyAt : (t : Task) → RunsOnlyAt c t → RunsOnlyAt c (tick t)
  unfolding tick
  tick-RunsOnlyAt t ok = record { current = λ e. ground arith; placed = λ e. ground arith }

  switch-RunsOnlyAt :
      (p : Ptr) (t : Task)
      → RunsOnlyAt c t
      → RunsOnlyAt p (demote_at c (at_task p (to_state running) t))
  switch-RunsOnlyAt p t ok = record { current = λ e. ground arith; placed = λ e. ground arith }

  at_task-RunsOnlyAt :
      (p : Ptr) (f : Task → Task) (t : Task)
      → (f t).address ≡ t.address
      → ((f t).state ≡ running → t.state ≡ running)
      → RunsOnlyAt c t
      → RunsOnlyAt c (at_task p f t)
  at_task-RunsOnlyAt p f t same stays ok = elim (Bool-cases (t.address == p)) [
    | inl here ↦ rw here (record {
      current = λ e. same ∙ ok.current (stays e);
      placed = λ e. ok.placed (sym same ∙ e);
    })
    | inr there ↦ rw there ok
  ]

module _ (s : Tasks) where
  switch_to-OnlyCurrentRuns : (p : Ptr) → OnlyCurrentRuns s → OnlyCurrentRuns (switch_to p s)
  unfolding switch_to
  switch_to-OnlyCurrentRuns p ok = elim (Bool-cases (p == s.current_task)) [
    | inl same ↦ rw same ok
    | inr other ↦ rw other (All-map _ _ _ s.task_list (switch-RunsOnlyAt s.current_task p) ok)
  ]

  ticks-OnlyCurrentRuns : OnlyCurrentRuns s → OnlyCurrentRuns (on_tasks tick s)
  ticks-OnlyCurrentRuns ok = All-map _ _ tick s.task_list (tick-RunsOnlyAt s.current_task) ok

  pub assign-OnlyCurrentRuns :
      (p : Ptr) (f : Task → Task)
      → ((t : Task) → ((f t).address ≡ t.address) × ((f t).state ≡ running → t.state ≡ running))
      → OnlyCurrentRuns s
      → OnlyCurrentRuns (on_tasks (at_task p f) s)
  assign-OnlyCurrentRuns p f h ok =
      All-map _ _ (at_task p f) s.task_list
        (λ t. at_task-RunsOnlyAt s.current_task p f t (h t).0 (h t).1) ok

resume-OnlyCurrentRuns :
    (s s' : Tasks) (o : Option Task) → OnlyCurrentRuns s → resume s o ≡ runs s' → OnlyCurrentRuns s'
unfolding resume
resume-OnlyCurrentRuns s s' none ok e = elim (Bool-cases (s.idle_task == null)) [
  | inl no_idle ↦ absurd (cc (rw no_idle at e))
  | inr idle ↦
      subst OnlyCurrentRuns (runs-injective (rw idle at e))
        (switch_to-OnlyCurrentRuns s s.idle_task ok)
]
resume-OnlyCurrentRuns s s' (some t) ok e =
    subst OnlyCurrentRuns (runs-injective e) (switch_to-OnlyCurrentRuns s t.address ok)

schedule-OnlyCurrentRuns :
    (s s' : Tasks) → OnlyCurrentRuns s → schedule s ≡ runs s' → OnlyCurrentRuns s'
unfolding schedule
schedule-OnlyCurrentRuns s s' ok e =
    resume-OnlyCurrentRuns (on_tasks tick s) s' (pick s.task_list none) (ticks-OnlyCurrentRuns s ok)
      e

leave-OnlyCurrentRuns :
    (s s' : Tasks) (f : Task → Task)
    → ((t : Task) → ((f t).address ≡ t.address) × ((f t).state ≡ running → t.state ≡ running))
    → OnlyCurrentRuns s
    → leave f s ≡ runs s'
    → OnlyCurrentRuns s'
leave-OnlyCurrentRuns s s' f h ok e = elim (Bool-cases (s.current_task == null)) [
  | inl no_task ↦ subst OnlyCurrentRuns (runs-injective (rw no_task at e)) ok
  | inr task ↦
      schedule-OnlyCurrentRuns (on_tasks (at_task s.current_task f) s) s'
        (assign-OnlyCurrentRuns s s.current_task f h ok) (rw task at e)
]

fork-OnlyCurrentRuns :
    (s : Tasks) (new : Fresh) → new.task ≢ null → OnlyCurrentRuns s → OnlyCurrentRuns (fork s new).1
unfolding fork
fork-OnlyCurrentRuns s new ne ok = elim (Bool-cases (s.current_task == null)) [
  | inl no_task ↦ rw no_task ok
  | inr task ↦ rw task (from (find_task s.current_task s.task_list))
]
  where
    from : (o : Option Task) → OnlyCurrentRuns (fork_from s new o).1
    from none = ok
    from (some t) = (record { current = λ e. cc; placed = ne }, ok)

-- One step keeps it.
pub Step-OnlyCurrentRuns : (s s' : Tasks) → Step s s' → OnlyCurrentRuns s → OnlyCurrentRuns s'
unfolding create exit yield_task sleep wake timer_handler
Step-OnlyCurrentRuns s s' (created new name entry priority ne room e) ok =
    rw e (record { current = λ e. cc; placed = ne }, ok)
Step-OnlyCurrentRuns s s' (forked new ne room e) ok = rw e (fork-OnlyCurrentRuns s new ne ok)
Step-OnlyCurrentRuns s s' (exited code e) ok =
    leave-OnlyCurrentRuns s s' (λ t. record t { state = zombie; exit_code = code })
      (λ t. (refl, λ q. cc)) ok e
Step-OnlyCurrentRuns s s' (yielded e) ok = schedule-OnlyCurrentRuns s s' ok e
Step-OnlyCurrentRuns s s' (slept ticks e) ok =
    leave-OnlyCurrentRuns s s' (λ t. record t { sleep_ticks = ticks; state = sleeping })
      (λ t. (refl, λ q. cc)) ok e
Step-OnlyCurrentRuns s s' (woken p e) ok = rw e (
    assign-OnlyCurrentRuns s p
      (λ t. if is_sleeping t.state then record t { state = ready; sleep_ticks = 0 } else t)
      (λ t. (ground arith, λ q. ground arith)) ok)
Step-OnlyCurrentRuns s s' (interrupted n e) ok = rw e (ticks-OnlyCurrentRuns s ok)

-- Whatever calls and interrupts follow, from a state where every task that is marked as running is
-- the current one, and no task lies at the null address, every reachable state is such a state.
pub Reach-OnlyCurrentRuns : {s s' : Tasks} → Reach s s' → OnlyCurrentRuns s → OnlyCurrentRuns s'
Reach-OnlyCurrentRuns start ok = ok
Reach-OnlyCurrentRuns (next {t} {u} r st) ok =
    Step-OnlyCurrentRuns t u st (Reach-OnlyCurrentRuns r ok)
