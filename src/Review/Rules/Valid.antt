-- ===== src/Review/Rules/Valid.antt =====
-- The rules that src/review/rules.rs loads.
use git_lab_work_runner.Base.{
  ℕ, ◌≤◌, ◌≡◌, ◌≢◌, refl, sym, subst, inl, inr, Bool, true, false, ◌||◌, List, [], ◌∷◌, ◌++◌, map,
  arith, ◌==◌, Bool-cases, Str, str_eq, str_eq_iff, codes, ends_with, trim, is_empty, length, max,
  All, All-kept, All-map, any, all, keep_if, Result, ok, err, >>=-eq-ok,
}
use git_lab_work_runner.App.Error.{AppError}
use git_lab_work_runner.Review.Rules.{
  ScriptTaskConfig, AiReviewConfig, RulesFile, Ruleset, check_ids, is_id_char, check_task,
  check_tasks, all_ids, compile_rules, parsed_rules, from_toml, script_tasks_by_ids,
}

-- No id stands twice.
abbrev pub AreDistinct : List Str → Type 0
AreDistinct [] = Unit
AreDistinct (id ∷ rest) = All (λ later. str_eq later id ≡ false) rest × AreDistinct rest

abbrev is_separator : ℕ → Bool
is_separator c = c == 47 || c == 92 || c == 0

-- A task that can be run: its id is a name of one path segment, and its limits are not zero.
pub record IsRunnable (task : ScriptTaskConfig) : Type 0 where
  pub not_here : task.id ≢ codes "."
  pub not_parent : task.id ≢ codes ".."
  pub named : is_empty task.id ≡ false
  pub one_segment : any is_separator task.id ≡ false
  pub no_end_dot : ends_with 46 task.id ≡ false
  pub some_concurrency : task.max_concurrent ≢ 0
  pub some_time : task.timeout_seconds ≢ 0

all-unsplit : (id : Str) → all is_id_char id ≡ true → any is_separator id ≡ false
all-unsplit [] h = refl
all-unsplit (c ∷ s) h = ground (arith, h, all-unsplit s)

check_ids-AreDistinct :
    (seen ids : List Str)
    → check_ids seen ids ≡ ok tt
    → All (λ id. any (str_eq id) seen ≡ false) ids × AreDistinct ids
unfolding check_ids
check_ids-AreDistinct seen [] h = (tt, tt)
check_ids-AreDistinct seen (id ∷ rest) h = elim (Bool-cases (any (str_eq id) seen)) [
  | inl y ↦ absurd (err-ok (rw (y, check_ids) at h))
  | inr n ↦
      let (fresh, distinct) = check_ids-AreDistinct (id ∷ seen) rest (rw (n, check_ids) at h) in
      (
        (n, All-map rest (λ later f. ground (arith, f)) fresh),
        (All-map rest (λ later f. ground (arith, f)) fresh, distinct),
      )
]
  where
    err-ok : {e : AppError} → err e ≢ ok (tt {0})
    err-ok k = cc

named_of_trim : (id : Str) → is_empty (trim id) ≡ false → is_empty id ≡ false
unfolding trim
named_of_trim [] h = h
named_of_trim (c ∷ s) h = refl

check_task-IsRunnable : (task : ScriptTaskConfig) → check_task task ≡ ok tt → IsRunnable task
unfolding check_task
check_task-IsRunnable task h = record {
  not_here = λ e. ground (arith, h, str_eq_iff task.id (codes "."));
  not_parent = λ e. ground (arith, h, str_eq_iff task.id (codes ".."));
  named = named_of_trim task.id (ground (arith, h));
  one_segment = all-unsplit task.id (ground (arith, h));
  no_end_dot = ground (arith, h);
  some_concurrency = λ e. ground (arith, h);
  some_time = λ e. ground (arith, h);
}

check_tasks-AreRunnable :
    (tasks : List ScriptTaskConfig) → check_tasks tasks ≡ ok tt → All IsRunnable tasks
unfolding check_tasks
check_tasks-AreRunnable [] h = tt
check_tasks-AreRunnable (task ∷ rest) h =
    let (u, e, later) = >>=-eq-ok (check_task task) (λ checked. check_tasks rest) h in
    (check_task-IsRunnable task e, check_tasks-AreRunnable rest later)

abbrev task_ids : List ScriptTaskConfig → List Str
task_ids tasks = map (λ (task : ScriptTaskConfig). task.id) tasks

AreDistinct-right : (xs ys : List Str) → AreDistinct (xs ++ ys) → AreDistinct ys
AreDistinct-right [] ys h = h
AreDistinct-right (x ∷ xs) ys h = AreDistinct-right xs ys h.1

All-ids :
    (P : Str → Type 0) (tasks : List ScriptTaskConfig)
    → All P (task_ids tasks)
    → All (λ t. P t.id) tasks
All-ids P [] h = tt
All-ids P (task ∷ rest) h = (h.0, All-ids P rest h.1)

All-of-ids :
    (P : Str → Type 0) (tasks : List ScriptTaskConfig)
    → All (λ t. P t.id) tasks
    → All P (task_ids tasks)
All-of-ids P [] h = tt
All-of-ids P (task ∷ rest) h = (h.0, All-of-ids P rest h.1)

AreDistinct-kept :
    (p : ScriptTaskConfig → Bool) (tasks : List ScriptTaskConfig)
    → AreDistinct (task_ids tasks)
    → AreDistinct (task_ids (keep_if p tasks))
AreDistinct-kept p [] h = tt
AreDistinct-kept p (task ∷ rest) h = elim (Bool-cases (p task)) [
  | inl y ↦
      rw (y, keep_if)
        (
          All-of-ids (λ later. str_eq later task.id ≡ false) (keep_if p rest)
              (All-kept (λ t. str_eq t.id task.id ≡ false) p rest
                (All-ids (λ later. str_eq later task.id ≡ false) rest h.0)),
          AreDistinct-kept p rest h.1,
        )
  | inr n ↦ rw (n, keep_if) (AreDistinct-kept p rest h.1)
]

-- The rules that hold of every ruleset: its tasks can be run and have ids of their own, and one review
-- at least runs at a time.
pub record IsValid (rules : Ruleset) : Type 0 where
  pub runnable : All IsRunnable rules.script_tasks
  pub distinct : AreDistinct (task_ids rules.script_tasks)
  pub some_review : 1 ≤ rules.max_concurrent_reviews

compile_rules-IsValid :
    (hash : Str) (parsed : RulesFile) (rules : Ruleset)
    → compile_rules hash parsed ≡ ok rules
    → AreDistinct (all_ids parsed) × IsValid rules
unfolding compile_rules
compile_rules-IsValid hash parsed rules h =
    let (u, eu, h1) = >>=-eq-ok (check_ids [] (all_ids parsed)) _ h in
    let (v, ev, h2) = >>=-eq-ok (check_tasks parsed.script_tasks) _ h1 in
    let distinct = (check_ids-AreDistinct [] (all_ids parsed) eu).1 in
    let runnable = check_tasks-AreRunnable parsed.script_tasks ev in
    let enabled = λ (task : ScriptTaskConfig). task.enabled in
    let tasks : keep_if enabled parsed.script_tasks ≡ rules.script_tasks = cc in
    let reviews : max parsed.ai_review.max_concurrent_reviews 1 ≡ rules.max_concurrent_reviews =
      cc in
    (
      distinct,
      record {
        runnable =
            subst (All IsRunnable) tasks (All-kept IsRunnable enabled parsed.script_tasks runnable);
        distinct =
            subst (λ ts. AreDistinct (task_ids ts)) tasks
              (AreDistinct-kept enabled parsed.script_tasks (
                AreDistinct-right (map (λ (review : AiReviewConfig). review.id) parsed.ai_reviews)
                  (task_ids parsed.script_tasks) distinct));
        some_review = omega (arith, reviews);
      },
    )

-- Rules that load are valid, whatever the parser and the digest: all ids in the file differ, each
-- enabled task has an id that is one path segment and limits that are not zero, and at least one review
-- runs at a time.
pub from_toml-IsValid :
    (parse_toml : Str → Result Str RulesFile) (sha256_hex : Str → Str) (text : Str)
    (rules : Ruleset)
    → from_toml parse_toml sha256_hex text ≡ ok rules
    → (parsed : RulesFile) × (parse_toml text ≡ ok parsed)
      × AreDistinct (all_ids parsed)
      × IsValid rules
unfolding from_toml
from_toml-IsValid parse_toml sha256_hex text rules h =
    let (parsed, e, h1) =
      >>=-eq-ok (parsed_rules (parse_toml text)) (λ p. compile_rules (sha256_hex text) p) h in
    let (distinct, valid) = compile_rules-IsValid (sha256_hex text) parsed rules h1 in
    (parsed, by_parse (parse_toml text) e, distinct, valid)
  where
    by_parse :
        (r : Result Str RulesFile) {parsed : RulesFile} → parsed_rules r ≡ ok parsed → r ≡ ok parsed
    by_parse (ok p) h = cc
    by_parse (err e) h = cc

none_selected :
    (id : Str) (tasks : List ScriptTaskConfig)
    → All (λ later. str_eq later id ≡ false) (task_ids tasks)
    → length (keep_if (λ (task : ScriptTaskConfig). any (λ i. str_eq i task.id) (id ∷ [])) tasks)
      ≡ 0
none_selected id [] h = refl
none_selected id (task ∷ rest) h =
    ground (arith, h.0, str_eq_iff id task.id, str_eq_iff task.id id, none_selected id rest h.1)

-- One requested id selects one task at most from valid rules.
pub script_tasks_by_ids-one :
    (rules : Ruleset) (id : Str) → IsValid rules → length (script_tasks_by_ids rules (id ∷ [])) ≤ 1
unfolding script_tasks_by_ids
script_tasks_by_ids-one rules id valid = one rules.script_tasks valid.distinct
  where
    one :
        (tasks : List ScriptTaskConfig)
        → AreDistinct (task_ids tasks)
        → length
            (keep_if (λ (task : ScriptTaskConfig). any (λ i. str_eq i task.id) (id ∷ [])) tasks)
          ≤ 1
    one [] h = omega arith
    one (task ∷ rest) h = elim (Bool-cases (str_eq id task.id)) [
      | inl y ↦
          let same = (str_eq_iff id task.id).0 y in
          ground (
            arith,
            y,
            none_selected id rest
                (subst (λ i. All (λ later. str_eq later i ≡ false) (task_ids rest)) (sym same) h.0),
          )
      | inr n ↦ ground (arith, n, one rest h.1)
    ]
