-- ===== src/App/ScriptScheduler/Worlds.antt =====
-- The scheduler together with the permits that are alive, under any interleaving of calls and drops.
use git_lab_work_runner.Base.{
  ℕ, zero, suc, ◌+◌, ◌≡◌, ◌↔◌, ◌<◌, ◌≤◌, refl, ap, ◌∙◌, inl, inr, Option, none, some, List, [], ◌∷◌,
  ◌++◌, arith, max, ◌==◌, if◌then◌else◌, Str, str_eq, str_eq_iff, str_equality, same-dec, subst,
  get, insert, remove, get-insert, get-remove, ok, err,
}
use git_lab_work_runner.App.ScriptScheduler.{
  ScriptTaskPermit, ScriptTaskBusy, ScriptTaskScheduler, try_acquire, drop_permit,
}

-- How many live permits are for a task.
abbrev pub count : Str → List ScriptTaskPermit → ℕ
count id [] = 0
count id (p ∷ ps) = (if str_eq p.task_id id then 1 else 0) + count id ps

count-append :
    (id : Str) (ps qs : List ScriptTaskPermit) → count id (ps ++ qs) ≡ count id ps + count id qs
count-append id [] qs = omega arith
count-append id (p ∷ ps) qs = ground (arith, count-append id ps qs)

pub record World : Type 0 where
  pub active : ScriptTaskScheduler
  pub live : List ScriptTaskPermit

abbrev pub empty_world : World
empty_world = record { active = []; live = [] }

-- A call is admitted or refused, under a limit of at most `limit` of the task; or some permit is dropped.
pub data Step (limit : Str → ℕ) (w : World) (w' : World) : Type 0 where
  acquires :
      (id : Str) (max_concurrent : ℕ) (active' : ScriptTaskScheduler) (p : ScriptTaskPermit)
      → max_concurrent ≤ limit id
      → try_acquire w.active id max_concurrent ≡ (active', ok p)
      → w' ≡ record { active = active'; live = p ∷ w.live }
      → Step limit w w'
  refuses :
      (id : Str) (max_concurrent : ℕ) (active' : ScriptTaskScheduler) (busy : ScriptTaskBusy)
      → try_acquire w.active id max_concurrent ≡ (active', err busy)
      → w' ≡ record { active = active'; live = w.live }
      → Step limit w w'
  drops :
      (ps : List ScriptTaskPermit) (p : ScriptTaskPermit) (qs : List ScriptTaskPermit)
      (active' : ScriptTaskScheduler)
      → w.live ≡ ps ++ p ∷ qs
      → drop_permit w.active p ≡ some active'
      → w' ≡ record { active = active'; live = ps ++ qs }
      → Step limit w w'

pub data Reach (limit : Str → ℕ) : World → Type 0 where
  at_start : Reach limit empty_world
  then_step : {w w' : World} → Reach limit w → Step limit w w' → Reach limit w'

-- What the map holds for a task with `n` live permits: no entry if there is none.
abbrev pub stored : ℕ → Option ℕ
stored n = if n == 0 then none else some n

pub record IsCounted (limit : Str → ℕ) (w : World) : Type 0 where
  pub counts : (id : Str) → get id w.active ≡ stored (count id w.live)
  pub bounded : (id : Str) → count id w.live ≤ max (limit id) 1

acquires-counts :
    (active active' : ScriptTaskScheduler) (live : List ScriptTaskPermit) (p : ScriptTaskPermit)
    (id : Str) (n : ℕ)
    → ((j : Str) → get j active ≡ stored (count j live))
    → try_acquire active id n ≡ (active', ok p)
    → (j : Str) → (get j active' ≡ stored (count j (p ∷ live)))
unfolding try_acquire
acquires-counts active active' live p id n counts h j =
    ground (arith, counts j, counts id, get-insert id j (count id live + 1) active, str_eq_iff id j)

acquires-bounded :
    (active active' : ScriptTaskScheduler) (live : List ScriptTaskPermit) (p : ScriptTaskPermit)
    (id : Str) (n : ℕ) (limit : Str → ℕ)
    → ((j : Str) → get j active ≡ stored (count j live))
    → ((j : Str) → count j live ≤ max (limit j) 1)
    → n ≤ limit id
    → try_acquire active id n ≡ (active', ok p)
    → (j : Str) → count j (p ∷ live) ≤ max (limit j) 1
unfolding try_acquire
acquires-bounded active active' live p id n limit counts bounded low h j = elim (same-dec id j) [
  | inl e ↦
      subst (λ k. count k (p ∷ live) ≤ max (limit k) 1) e
        (ground (arith, counts id, bounded id, str_eq_iff id id))
  | inr ne ↦ ground (arith, bounded j, str_eq_iff id j)
]

acquires-IsCounted :
    (limit : Str → ℕ) (w : World) (id : Str) (n : ℕ) (active' : ScriptTaskScheduler)
    (p : ScriptTaskPermit)
    → n ≤ limit id
    → try_acquire w.active id n ≡ (active', ok p)
    → IsCounted limit w
    → IsCounted limit (record { active = active'; live = p ∷ w.live })
acquires-IsCounted limit w id n active' p low h s = record {
  counts = acquires-counts w.active active' w.live p id n s.counts h;
  bounded = acquires-bounded w.active active' w.live p id n limit s.counts s.bounded low h;
}

refuses_lem :
    (active active' : ScriptTaskScheduler) (id : Str) (n : ℕ) (busy : ScriptTaskBusy)
    → try_acquire active id n ≡ (active', err busy)
    → active' ≡ active
unfolding try_acquire
refuses_lem active active' id n busy h = ground arith

-- A live permit is counted, so its drop does not underflow.
drop_permit-counted :
    (active : ScriptTaskScheduler) (p : ScriptTaskPermit) (n : ℕ)
    → get p.task_id active ≡ some (suc n)
    → (active' : ScriptTaskScheduler) × (drop_permit active p ≡ some active')
      × ((j : Str) → get j active' ≡ (if str_eq p.task_id j then stored n else get j active))
unfolding drop_permit
drop_permit-counted active p zero h = (
  remove p.task_id active,
  rw (h, drop_permit) (ground arith),
  λ j. get-remove p.task_id j active,
)
drop_permit-counted active p (suc n) h = (
  insert p.task_id (suc n) active,
  rw (h, drop_permit) (ground arith),
  λ j. ground (arith, get-insert p.task_id j (suc n) active),
)

module _ (limit : Str → ℕ) (w : World) (ps : List ScriptTaskPermit) (p : ScriptTaskPermit)
    (qs : List ScriptTaskPermit) (split : w.live ≡ ps ++ p ∷ qs) (s : IsCounted limit w) where
  split-count :
      (j : Str) → count j w.live ≡ (if str_eq p.task_id j then 1 else 0) + count j (ps ++ qs)
  split-count j =
      ap (count j) split ∙ omega (arith, count-append j ps (p ∷ qs), count-append j ps qs)

  counted : get p.task_id w.active ≡ some (suc (count p.task_id (ps ++ qs)))
  counted =
      ground (arith, s.counts p.task_id, split-count p.task_id, str_eq_iff p.task_id p.task_id)

  drops-total : (active' : ScriptTaskScheduler) × (drop_permit w.active p ≡ some active')
  drops-total =
      let (active', e, _) = drop_permit-counted w.active p (count p.task_id (ps ++ qs)) counted in
      (active', e)

  drops-IsCounted :
      (active' : ScriptTaskScheduler)
      → drop_permit w.active p ≡ some active'
      → IsCounted limit (record { active = active'; live = ps ++ qs })
  drops-IsCounted active' e =
      let (a, done, got) = drop_permit-counted w.active p (count p.task_id (ps ++ qs)) counted in
      let same_map : a ≡ active' = ground (arith, done, e) in
      record {
        counts = λ j. rw (← same_map) (rw (got j) (go j));
        bounded = λ j. omega (arith, split-count j, s.bounded j);
      }
    where
      go :
          (j : Str)
          → (if str_eq p.task_id j then stored (count p.task_id (ps ++ qs)) else get j w.active)
            ≡ stored (count j (ps ++ qs))
      go j = elim (same-dec p.task_id j) [
        | inl same_id ↦
            subst
              (λ k.
                (if str_eq p.task_id k then stored (count p.task_id (ps ++ qs)) else get k w.active)
                ≡ stored (count k (ps ++ qs)))
              same_id (ground (arith, str_eq_iff p.task_id p.task_id))
        | inr ne ↦ ground (arith, s.counts j, split-count j, str_eq_iff p.task_id j)
      ]

Step-IsCounted :
    {limit : Str → ℕ} {w w' : World} → Step limit w w' → IsCounted limit w → IsCounted limit w'
Step-IsCounted {limit} {w} {w'} (acquires id n active' p low h e) s =
    rw e (acquires-IsCounted limit w id n active' p low h s)
Step-IsCounted {limit} {w} {w'} (refuses id n active' busy h e) s =
    rw (e, refuses_lem w.active active' id n busy h) s
Step-IsCounted {limit} {w} {w'} (drops ps p qs active' split h e) s =
    rw e (drops-IsCounted limit w ps p qs split s active' h)

-- In every reachable world the map holds, for each task, exactly the number of its live permits (no
-- entry if there is none), and that number is at most the larger of the task's limit and 1.
pub Reach-IsCounted : {limit : Str → ℕ} {w : World} → Reach limit w → IsCounted limit w
Reach-IsCounted at_start = record { counts = λ id. refl; bounded = λ id. omega arith }
Reach-IsCounted (then_step r st) = Step-IsCounted st (Reach-IsCounted r)

-- In a reachable world, the drop of a live permit does not underflow, and leads to a reachable world
-- with that permit gone.
pub drop_permit-total :
    {limit : Str → ℕ} (w : World) (ps : List ScriptTaskPermit) (p : ScriptTaskPermit)
    (qs : List ScriptTaskPermit)
    → Reach limit w
    → w.live ≡ ps ++ p ∷ qs
    → (active' : ScriptTaskScheduler) × (drop_permit w.active p ≡ some active')
      × Reach limit (record { active = active'; live = ps ++ qs })
drop_permit-total {limit} w ps p qs r split =
    let (active', e) = drops-total limit w ps p qs split (Reach-IsCounted r) in
    (active', e, then_step r (drops ps p qs active' split e refl))

-- In a reachable world a call is admitted exactly when the task has fewer live permits than the
-- larger of the limit and 1: permits of other tasks do not count.
pub try_acquire_iff :
    {limit : Str → ℕ} (w : World) (id : Str) (max_concurrent : ℕ)
    → Reach limit w
    → ((try_acquire w.active id max_concurrent).1 ≡ ok (record { task_id = id }))
      ↔ (count id w.live < max max_concurrent 1)
unfolding try_acquire
try_acquire_iff w id n r = ground (arith, (Reach-IsCounted r).counts id)
