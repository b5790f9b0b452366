-- ===== src/App/ActiveReviews.antt =====
-- src/app/active_reviews.rs. The mutex is a step at a time; a poisoned lock hands out the same map.
pub mod Worlds
use git_lab_work_runner.Base.{
  ℕ, zero, suc, ◌≡◌, ◌↔◌, Bool, true, false, ◌&&◌, Option, none, some, List, [], ◌∷◌, ◌++◌, arith,
  max, leb, ◌==◌, if◌then◌else◌, Equality, Str, str_eq, str_eq_iff, Map, get, insert, remove,
  length, ℤ, int_eq, int_eq_iff, Result, ok, err,
}

pub record ActiveReviewKey : Type 0 where
  pub project_id : ℤ
  pub mr_iid : ℤ
  pub commit_sha : Str

abbrev pub key_eq : ActiveReviewKey → ActiveReviewKey → Bool
key_eq a b =
    int_eq a.project_id b.project_id && int_eq a.mr_iid b.mr_iid && str_eq a.commit_sha b.commit_sha

pub key_eq_iff : (a b : ActiveReviewKey) → (key_eq a b ≡ true) ↔ (a ≡ b)
key_eq_iff a b = ground (
  arith,
  int_eq_iff a.project_id b.project_id,
  int_eq_iff a.mr_iid b.mr_iid,
  str_eq_iff a.commit_sha b.commit_sha,
)

instance abbrev pub key_equality : Equality ActiveReviewKey
key_equality = record { same = key_eq; same_iff = key_eq_iff }

-- The `Arc` of the registry is left out: there is one registry.
pub record ActiveReviewGuard : Type 0 where
  pub key : ActiveReviewKey
  pub review_run_id : Str

pub record ActiveReviewStart : Type 0 where
  pub guard : ActiveReviewGuard
  pub active_count : ℕ

pub data ActiveReviewStartError : Type 0 where
  duplicate : Str → ℕ → ActiveReviewStartError
  queue_busy : ℕ → ℕ → ActiveReviewStartError

-- The map behind the mutex.
abbrev pub ActiveReviews : Type 0
ActiveReviews = Map ActiveReviewKey Str

abbrev admit : ActiveReviews → ActiveReviewKey → Str → ActiveReviews × ActiveReviewStart
admit running key run =
    let running' = insert key run running in
    (
      running',
      record { guard = record { key = key; review_run_id = run }; active_count = length running' },
    )

-- `try_start`: the map after the call, and its result.
unfoldable pub try_start :
    ActiveReviews
    → ActiveReviewKey
    → Str
    → ℕ
    → ActiveReviews × Result ActiveReviewStartError ActiveReviewStart
try_start running key run max_concurrent_reviews = elim (get key running) [
  | some active_run ↦ (running, err (duplicate active_run (length running)))
  | none ↦
      let limit = max max_concurrent_reviews 1 in
      let active_count = length running in
      if leb limit active_count
      then (running, err (queue_busy active_count limit))
      else (let (running', start) = admit running key run in (running', ok start))
]

-- `finish`: whether an entry of this run was removed.
unfoldable pub finish : ActiveReviews → ActiveReviewKey → Str → ActiveReviews × Bool
finish running key run = elim (get key running) [
  | some active_run ↦ if str_eq active_run run then (remove key running, true) else (running, false)
  | none ↦ (running, false)
]

-- `Drop for ActiveReviewGuard`; the flag is only logged.
unfoldable pub drop_guard : ActiveReviews → ActiveReviewGuard → ActiveReviews × Bool
unfolding finish
drop_guard running guard = finish running guard.key guard.review_run_id
