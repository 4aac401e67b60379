-- ===== src/Task/Pick.antt =====
-- The choice that `task_schedule` of kernel/task.c makes.
use vaelen.Prelude.{
  ◌+◌, ◌<◌, ◌≡◌, refl, ap, true, false, ◌&&◌, Option, none, some, List, [], ◌∷◌, ◌++◌, arith,
  Bool-cases, ◌⊎◌, inl, inr, All,
}
use vaelen.Prelude.Int.{ℤ, pos_part, neg_part, ltb_ℤ, ◌≤ℤ◌}
use vaelen.Task.{Task, is_runnable, pick}

infix 50 ◌<ℤ◌
abbrev pub ◌<ℤ◌ : ℤ → ℤ → Type 0
a <ℤ b = pos_part a + neg_part b < pos_part b + neg_part a

-- Among these tasks every one that could run has a priority at most, or below, `b`'s.
abbrev pub NoneAbove : Task → List Task → Type 0
NoneAbove b = All (λ t. is_runnable t.state ≡ true → t.priority ≤ℤ b.priority)

abbrev pub AllBelow : Task → List Task → Type 0
AllBelow b = All (λ t. is_runnable t.state ≡ true → t.priority <ℤ b.priority)

-- The first task in list order of the highest priority among those that can run.
abbrev pub IsBest : List Task → Option Task → Type 0
IsBest ts none = All (λ t. is_runnable t.state ≡ false) ts
IsBest ts (some b) =
    (front : List Task) × (back : List Task) × (ts ≡ front ++ (b ∷ back))
    × (is_runnable b.state ≡ true)
    × AllBelow b front
    × NoneAbove b back

-- What the loop makes of a candidate: it stands, or a later task of higher priority takes its place.
abbrev Improves : Task → List Task → Option Task → Type 0
Improves b ts none = ⊥
Improves b ts (some c) =
    ((c ≡ b) × NoneAbove b ts) ⊎ (IsBest ts (some c) × (b.priority <ℤ c.priority))

-- The best of a tail is the best of the whole, when the head, if it could run, is below it.
IsBest-cons :
    (t : Task) (ts : List Task) (c : Task)
    → (is_runnable t.state ≡ true → t.priority <ℤ c.priority)
    → IsBest ts (some c)
    → IsBest (t ∷ ts) (some c)
IsBest-cons t ts c lower (front, back, e, run, below, above) =
    (t ∷ front, back, ap (◌∷◌ t) e, run, (lower, below), above)

Improves-keep :
    (b t : Task) (ts : List Task) (o : Option Task)
    → (is_runnable t.state ≡ true → t.priority ≤ℤ b.priority)
    → Improves b ts o
    → Improves b (t ∷ ts) o
Improves-keep b t ts none h i = i
Improves-keep b t ts (some c) h (inl (e, above)) = inl (e, (h, above))
Improves-keep b t ts (some c) h (inr (best, lt)) =
    inr (IsBest-cons t ts c (λ r. omega (arith, h r)) best, lt)

IsBest-take :
    (t : Task) (ts : List Task) (o : Option Task)
    → is_runnable t.state ≡ true
    → Improves t ts o
    → IsBest (t ∷ ts) o
IsBest-take t ts none run i = absurd i
IsBest-take t ts (some c) run (inl (e, above)) = rw e ([], ts, refl, run, tt, above)
IsBest-take t ts (some c) run (inr (best, lt)) = IsBest-cons t ts c (λ r. lt) best

Improves-take :
    (b t : Task) (ts : List Task) (o : Option Task)
    → is_runnable t.state ≡ true
    → b.priority <ℤ t.priority
    → Improves t ts o
    → Improves b (t ∷ ts) o
Improves-take b t ts none run lt i = i
Improves-take b t ts (some c) run lt (inl (e, above)) =
    inr (IsBest-take t ts (some c) run (inl (e, above)), rw e lt)
Improves-take b t ts (some c) run lt (inr (best, lt')) =
    inr (IsBest-cons t ts c (λ r. lt') best, omega arith)

Improves-pick : (b : Task) (ts : List Task) → Improves b ts (pick ts (some b))
unfolding pick
Improves-pick b [] = inl (refl, tt)
Improves-pick b (t ∷ ts) = elim (Bool-cases (is_runnable t.state && ltb_ℤ b.priority t.priority)) [
  | inl better ↦ rw better (
      Improves-take b t ts (pick ts (some t)) (and-left better) (and-right better)
        (Improves-pick t ts))
  | inr worse ↦
      rw worse (Improves-keep b t ts (pick ts (some b)) (not-above worse) (Improves-pick b ts))
]
  where
    and-left :
        (is_runnable t.state && ltb_ℤ b.priority t.priority) ≡ true → is_runnable t.state ≡ true
    and-left h = ground arith

    and-right :
        (is_runnable t.state && ltb_ℤ b.priority t.priority) ≡ true → b.priority <ℤ t.priority
    and-right h = ground arith

    not-above :
        (is_runnable t.state && ltb_ℤ b.priority t.priority) ≡ false
        → is_runnable t.state ≡ true
        → t.priority ≤ℤ b.priority
    not-above h r = ground arith

-- `task_schedule` finds no task only when none is ready or running; else it takes the first task in
-- list order of the highest priority among those.
pub pick-IsBest : (ts : List Task) → IsBest ts (pick ts none)
unfolding pick
pick-IsBest [] = tt
pick-IsBest (t ∷ ts) = elim (Bool-cases (is_runnable t.state)) [
  | inl run ↦ rw run (IsBest-take t ts (pick ts (some t)) run (Improves-pick t ts))
  | inr idle ↦ rw idle (skip (pick ts none) idle (pick-IsBest ts))
]
  where
    skip : (o : Option Task) → is_runnable t.state ≡ false → IsBest ts o → IsBest (t ∷ ts) o
    skip none idle all = (idle, all)
    skip (some c) idle best = IsBest-cons t ts c (λ r. cc) best
