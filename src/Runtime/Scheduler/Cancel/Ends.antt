-- ===== src/Runtime/Scheduler/Cancel/Ends.antt =====
-- src/runtime/scheduler.rs: `cancel` ends, and cancels a task and all that descend from it.
use vim_script.Prelude.{
  ℕ, zero, suc, ◌+◌, ◌<◌, ◌≤◌, ◌≡◌, refl, ◌∙◌, true, none, some, List, [], ◌∷◌, arith, Option-cases,
  Bool-cases, inl, inr, get, is_some, member, ◌==◌, subst,
}
use vim_script.Runtime.Scheduler.State.{ScriptTask, Scheduler}
use vim_script.Runtime.Scheduler.Drive.{forget_awaited, cancel_one, cancel_each, cancel}
use vim_script.Runtime.Scheduler.Sane.{Sane}
use vim_script.Runtime.Scheduler.Cancel.{
  is_cancelled, children_of, Nested, Keeping, Keeping-trans, Keeping-Nested, cancel_one-Keeping,
  mark_cancelled-is_cancelled,
}

-- The second task is the first one, or a child of it, or a child of such a child, and so on.
pub data Descends {H Fut : Type 0} (s : Scheduler H Fut) : ℕ → ℕ → Type 0 where
  self : (id : ℕ) → Descends s id id
  child :
      {id c d : ℕ}
      → member c (children_of (get id s.tasks)) ≡ true
      → Descends s c d
      → Descends s id d

-- What a call of `cancel` on a task gives.
pub record Cancels {H Fut : Type 0} (fuel id : ℕ) (s : Scheduler H Fut) : Type 0 where
  pub after : Scheduler H Fut
  pub result : cancel fuel id s ≡ some (is_some (get id s.tasks), after)
  pub keeping : Keeping s after
  pub family :
      (d : ℕ)
      → Descends s id d
      → is_some (get d s.tasks) ≡ true
      → is_cancelled (get d after.tasks) ≡ true

module _ {H Fut : Type 0} where
  Keeping-refl : {s : Scheduler H Fut} → Sane s → Keeping s s
  Keeping-refl sane = record {
    sane = sane;
    next = refl;
    families = λ j. refl;
    same_tasks = λ j. refl;
    grows = λ j g. g;
  }

  Descends-Keeping :
      {s s' : Scheduler H Fut} → Keeping s s' → {id d : ℕ} → Descends s id d → Descends s' id d
  Descends-Keeping k (self id) = self id
  Descends-Keeping k (child {id} {c} {d} m rest) =
      child {c = c} (rw (k.families id) m) (Descends-Keeping k rest)

  missing_family :
      (id d : ℕ) (s : Scheduler H Fut)
      → get id s.tasks ≡ none
      → Descends s id d
      → is_some (get d s.tasks) ≡ true
      → is_cancelled (get d s.tasks) ≡ true
  unfolding children_of member
  missing_family id d s missing (self _) known = ground arith
  missing_family id d s missing (child m rest) known = ground arith

  cancel_each-Keeping :
      (n : ℕ)
      → ((c : ℕ) (s : Scheduler H Fut)
          → Sane s
          → Nested s
          → 0 < n
          → s.next_task_id ≤ c + n
          → Cancels n c s)
      → (cs : List ℕ) (s : Scheduler H Fut) → Sane s
      → Nested s
      → ((c : ℕ) → member c cs ≡ true → (c < s.next_task_id) × (s.next_task_id ≤ c + n))
      → (s' : Scheduler H Fut) × (cancel_each (cancel n) cs s ≡ some s')
        × Keeping s s'
        × ((c d : ℕ)
            → member c cs ≡ true
            → Descends s c d
            → is_some (get d s.tasks) ≡ true
            → is_cancelled (get d s'.tasks) ≡ true)
  unfolding cancel_each member
  cancel_each-Keeping n rec [] s sane nested inside = (s, refl, Keeping-refl sane, λ c d m. cc)
  cancel_each-Keeping n rec (x ∷ xs) s sane nested inside =
      let (lt, le) = inside x (ground arith) in
      let one = rec x s sane nested (omega arith) le in
      let k = one.keeping in
      let (s', e, k', all) =
        cancel_each-Keeping n rec xs one.after k.sane (Keeping-Nested k nested)
          (λ c m. let (lt', le') = inside c (ground arith) in (rw k.next lt', rw k.next le')) in
      (
        s',
        rw (one.result, cancel_each) e,
        Keeping-trans k k',
        λ c d m below known. elim (Bool-cases (x == c)) [
          | inl same ↦
              k'.grows d
                (one.family d (subst (λ y. Descends s y d) (ground (arith, same)) below) known)
          | inr other ↦
              all c d (ground arith) (Descends-Keeping k below) (rw (k.same_tasks d) known)
        ],
      )

  child_fits :
      (n id c : ℕ) (t : ScriptTask) (s : Scheduler H Fut)
      → get id s.tasks ≡ some t
      → member c t.children ≡ true
      → Sane s
      → Nested s
      → s.next_task_id ≤ id + suc n
      → (c < s.next_task_id) × (s.next_task_id ≤ c + n)
  unfolding children_of
  child_fits n id c t s found m sane nested le =
      (ground (arith, nested.known id c, sane.fresh_tasks c), ground (arith, nested.above id c))

  cancel_last-Keeping :
      (id : ℕ) (s : Scheduler H Fut)
      → is_some (get id s.tasks) ≡ true
      → Sane s
      → Keeping s (cancel_one id s)
  unfolding cancel_one
  cancel_last-Keeping id s there sane = elim (Option-cases (get id s.tasks)) [
    | inl missing ↦ ground (arith, missing, there)
    | inr (t, found) ↦ rw (found, cancel_one) (cancel_one-Keeping id t s found sane)
  ]

  cancel_one-is_cancelled :
      (id : ℕ) (s : Scheduler H Fut)
      → is_some (get id s.tasks) ≡ true
      → is_cancelled (get id (cancel_one id s).tasks) ≡ true
  unfolding cancel_one
  cancel_one-is_cancelled id s there = elim (Option-cases (get id s.tasks)) [
    | inl missing ↦ ground (arith, missing, there)
    | inr (t, found) ↦
        rw (found, cancel_one) (mark_cancelled-is_cancelled id t (forget_awaited t.state s))
  ]

  family_cancelled :
      (id d : ℕ) (t : ScriptTask) (s s' : Scheduler H Fut)
      → get id s.tasks ≡ some t
      → is_some (get id s'.tasks) ≡ true
      → Keeping s' (cancel_one id s')
      → ((c d : ℕ)
          → member c t.children ≡ true
          → Descends s c d
          → is_some (get d s.tasks) ≡ true
          → is_cancelled (get d s'.tasks) ≡ true)
      → Descends s id d
      → is_some (get d s.tasks) ≡ true
      → is_cancelled (get d (cancel_one id s').tasks) ≡ true
  unfolding children_of
  family_cancelled id d t s s' found there k all (self _) known =
      cancel_one-is_cancelled id s' there
  family_cancelled id d t s s' found there k all (child {c = c} m rest) known =
      k.grows d (all c d (ground (arith, m, found)) rest known)

  -- Cancelling a task, when the tables are right and each child has a greater id than its parent,
  -- ends within a nesting of calls as deep as the ids that are left above the task's own. It
  -- answers whether the task exists, keeps the tables right, keeps every task, its children and
  -- what was cancelled before, and leaves the task and every task that descends from it cancelled.
  pub cancel-Cancels :
      (fuel id : ℕ) (s : Scheduler H Fut)
      → Sane s
      → Nested s
      → 0 < fuel
      → s.next_task_id ≤ id + fuel
      → Cancels fuel id s
  unfolding cancel
  cancel-Cancels zero id s sane nested lt le = ground arith
  cancel-Cancels (suc n) id s sane nested lt le = elim (Option-cases (get id s.tasks)) [
    | inl missing ↦ record {
      after = s;
      result = rw (missing, cancel) refl;
      keeping = Keeping-refl sane;
      family = λ d below known. missing_family id d s missing below known;
    }
    | inr (t, found) ↦
        let (s', e, k, all) =
          cancel_each-Keeping n (cancel-Cancels n) t.children s sane nested
            (λ c m. child_fits n id c t s found m sane nested le) in
        let there : is_some (get id s'.tasks) ≡ true = k.same_tasks id ∙ rw found refl in
        let k' = cancel_last-Keeping id s' there k.sane in
        record {
          after = cancel_one id s';
          result = rw (found, cancel) (rw e refl);
          keeping = Keeping-trans k k';
          family = λ d below known.
              family_cancelled id d t s s' found there k' (λ c d m. all c d m) below known;
        }
  ]
