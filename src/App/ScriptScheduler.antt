-- ===== src/App/ScriptScheduler.antt =====
-- src/app/script_scheduler.rs. The mutex is a step at a time; a poisoned lock hands out the same map.
pub mod Worlds
use git_lab_work_runner.Base.{
  ℕ, zero, suc, ◌+◌, ◌-◌, ◌≡◌, Bool, true, false, Option, none, some, List, [], ◌∷◌, arith, max,
  leb, ◌==◌, if◌then◌else◌, Str, str_equality, Map, get, insert, remove, Result, ok, err,
}

-- The `Arc` of the scheduler is left out: there is one scheduler.
pub record ScriptTaskPermit : Type 0 where
  pub task_id : Str

pub record ScriptTaskBusy : Type 0 where
  pub active_count : ℕ
  pub max_concurrent : ℕ

-- The map behind the mutex: how many runs of each task are active.
abbrev pub ScriptTaskScheduler : Type 0
ScriptTaskScheduler = Map Str ℕ

-- `unwrap_or_default` of a count.
abbrev pub count_or_zero : Option ℕ → ℕ
count_or_zero none = 0
count_or_zero (some n) = n

-- `try_acquire`: the map after the call, and its result.
unfoldable pub try_acquire :
    ScriptTaskScheduler → Str → ℕ → ScriptTaskScheduler × Result ScriptTaskBusy ScriptTaskPermit
try_acquire active task_id max_concurrent =
    let limit = max max_concurrent 1 in
    let active_count = count_or_zero (get task_id active) in
    if leb limit active_count
    then (active, err (record { active_count = active_count; max_concurrent = limit }))
    else (insert task_id (active_count + 1) active, ok (record { task_id = task_id }))

-- `Drop for ScriptTaskPermit`; `none` is the overflow of `*count -= 1` at zero.
unfoldable pub drop_permit : ScriptTaskScheduler → ScriptTaskPermit → Option ScriptTaskScheduler
drop_permit active permit = elim (get permit.task_id active) [
  | none ↦ some active
  | some count ↦
      if count == 0
      then none
      else (if count - 1 == 0
          then some (remove permit.task_id active)
          else some (insert permit.task_id (count - 1) active))
]
