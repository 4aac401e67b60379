-- ===== src/Task/Sleep/Countdown.antt =====
-- One round of the countdown of kernel/task.c: what `tick`, the switch to another task and
-- `task_schedule` do to a task that sleeps.
use mathlib.Core.Option
use vaelen.Prelude.{
  ℕ, suc, ◌≡◌, ◌≢◌, refl, ap, subst, sym, ◌∙◌, Bool, if◌then◌else◌, Option, none, some, List, [],
  ◌∷◌, ◌++◌, map, All, arith, ◌==◌, ==_same, ==_iff, Bool-cases, inl, inr,
}
use vaelen.Mm.Heap.{Ptr, null}
use vaelen.Task.{
  Task, TaskState, sleeping, ready, running, Tasks, runs, tick, find_task, schedule, resume,
  switch_to, on_tasks, at_task, to_state, demote_at, pick,
}
use vaelen.Task.Steps.{All-map}
use vaelen.Task.Single.{runs-injective}
use vaelen.Task.Pick.{IsBest, pick-IsBest}

-- A sleeper with that many ticks left is asleep, or ready where none are left.
abbrev pub sleeper_state : ℕ → TaskState
sleeper_state left = if left == 0 then ready else sleeping

abbrev pub Sleeps : Ptr → ℕ → Task → Type 0
Sleeps p left t = t.address ≡ p → (t.state ≡ sleeper_state left) × (t.sleep_ticks ≡ left)

pub record Asleep (p : Ptr) (left : ℕ) (s : Tasks) : Type 0 where
  pub no_idle : s.idle_task ≡ null
  pub listed : (t : Task) × (find_task p s.task_list ≡ some t)
  pub sleepers : All (Sleeps p left) s.task_list

pub find_task-map :
    (p : Ptr) (f : Task → Task) (ts : List Task)
    → ((t : Task) → (f t).address ≡ t.address)
    → find_task p (map f ts) ≡ Option.map f (find_task p ts)
unfolding find_task
find_task-map p f [] kept = refl
find_task-map p f (t ∷ ts) kept = elim (Bool-cases (t.address == p)) [
  | inl here ↦ ap after (same ∙ here) ∙ sym (ap before here)
  | inr there ↦ ap after (same ∙ there) ∙ find_task-map p f ts kept ∙ sym (ap before there)
]
  where
    same : ((f t).address == p) ≡ (t.address == p)
    same = ap (λ a. a == p) (kept t)

    after : Bool → Option Task
    after b = if b then some (f t) else find_task p (map f ts)

    before : Bool → Option Task
    before b = Option.map f (if b then some t else find_task p ts)

some-injective : {t u : Task} → some t ≡ some u → t ≡ u
some-injective e = cc

pub find_task-Sleeps :
    (p : Ptr) (left : ℕ) (ts : List Task) (t : Task)
    → find_task p ts ≡ some t
    → All (Sleeps p left) ts
    → (t.state ≡ sleeper_state left) × (t.sleep_ticks ≡ left)
unfolding find_task
find_task-Sleeps p left [] t e all = absurd (cc e)
find_task-Sleeps p left (u ∷ us) t e all = elim (Bool-cases (u.address == p)) [
  | inl here ↦ subst at (some-injective (sym (ap either here) ∙ e)) (all.0 ((==_iff _ _).0 here))
  | inr there ↦ find_task-Sleeps p left us t (sym (ap either there) ∙ e) all.1
]
  where
    either : Bool → Option Task
    either b = if b then some u else find_task p us

    at : Task → Type 0
    at t = (t.state ≡ sleeper_state left) × (t.sleep_ticks ≡ left)

-- An update of every task that leaves the addresses.
Asleep-map :
    (p : Ptr) (left left' : ℕ) (f : Task → Task) (s : Tasks)
    → ((t : Task) → (f t).address ≡ t.address)
    → ((t : Task) → Sleeps p left t → Sleeps p left' (f t))
    → Asleep p left s
    → Asleep p left' (on_tasks f s)
Asleep-map p left left' f s kept sleeps ok = record {
  no_idle = ok.no_idle;
  listed = (f ok.listed.0, find_task-map p f s.task_list kept ∙ ap (Option.map f) ok.listed.1);
  sleepers = All-map _ _ f s.task_list sleeps ok.sleepers;
}

tick-address : (t : Task) → (tick t).address ≡ t.address
unfolding tick
tick-address t = ground arith

tick-Sleeps : (p : Ptr) (left : ℕ) (t : Task) → Sleeps p (suc left) t → Sleeps p left (tick t)
unfolding tick
tick-Sleeps p left t sleeps = λ e. ground (arith, sleeps (sym (tick-address t) ∙ e))

pub ticks-Asleep :
    (p : Ptr) (left : ℕ) (s : Tasks) → Asleep p (suc left) s → Asleep p left (on_tasks tick s)
ticks-Asleep p left s = Asleep-map p (suc left) left tick s tick-address (tick-Sleeps p left)

-- The switch to another task.
demote-address :
    (c q : Ptr) (t : Task) → (demote_at c (at_task q (to_state running) t)).address ≡ t.address
demote-address c q t = ground arith

demote-Sleeps :
    (p c q : Ptr) (left : ℕ) (t : Task)
    → q ≢ p
    → Sleeps p left t
    → Sleeps p left (demote_at c (at_task q (to_state running) t))
demote-Sleeps p c q left t other sleeps =
    λ e. ground (arith, sleeps (sym (demote-address c q t) ∙ e))

switch_to-Asleep :
    (p q : Ptr) (left : ℕ) (s : Tasks) → q ≢ p → Asleep p left s → Asleep p left (switch_to q s)
unfolding switch_to
switch_to-Asleep p q left s other ok = elim (Bool-cases (q == s.current_task)) [
  | inl same ↦ rw same ok
  | inr apart ↦ rw apart (
      moved _ (
        Asleep-map p left left _ s (demote-address s.current_task q)
          (λ t. demote-Sleeps p s.current_task q left t other) ok))
]
  where
    moved :
        (f : Task → Task)
        → Asleep p left (on_tasks f s)
        → Asleep p left (record (on_tasks f s) { current_task = q })
    moved f a = record { no_idle = a.no_idle; listed = a.listed; sleepers = a.sleepers }

-- The scheduler does not choose a sleeper.
All-middle :
    (P : Task → Type 0) (front : List Task) (b : Task) (back : List Task)
    → All P (front ++ (b ∷ back))
    → P b
All-middle P [] b back all = all.0
All-middle P (t ∷ front) b back all = All-middle P front b back all.1

IsBest-other :
    (p : Ptr) (left : ℕ) (ts : List Task) (b : Task)
    → IsBest ts (some b)
    → All (Sleeps p (suc left)) ts
    → b.address ≢ p
IsBest-other p left ts b (front, back, e, run, below, above) all = λ here.
    let asleep = All-middle _ front b back (subst (All (Sleeps p (suc left))) e all) here in
    absurd (ground (arith, asleep.0, run))

pub schedule-Asleep :
    (p : Ptr) (left : ℕ) (s s' : Tasks)
    → Asleep p (suc left) s
    → schedule s ≡ runs s'
    → Asleep p left s'
unfolding schedule resume
schedule-Asleep p left s s' ok e = by (pick s.task_list none) (pick-IsBest s.task_list) e
  where
    by :
        (o : Option Task)
        → IsBest s.task_list o
        → resume (on_tasks tick s) o ≡ runs s'
        → Asleep p left s'
    by none best f = absurd (cc (rw (==_same s.idle_task null ok.no_idle) at f))
    by (some b) best f = subst (Asleep p left) (runs-injective f) (
        switch_to-Asleep p b.address left (on_tasks tick s)
          (IsBest-other p left s.task_list b best ok.sleepers) (ticks-Asleep p left s ok))
