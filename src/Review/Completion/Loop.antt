-- ===== src/Review/Completion/Loop.antt =====
-- The loop of `complete_ai_review_response` of src/review/ai.rs, from the body of the first answer.
use git_lab_work_runner.Base.{ℕ, zero, suc, Option, none, some, List, Str, Result, ok, err}
use git_lab_work_runner.App.Error.{AppError}
use git_lab_work_runner.Review.Rules.{Finding}
use git_lab_work_runner.Review.Completion.{Setting, Next, finished, next_request, answer_body}
use git_lab_work_runner.Review.Completion.Requests.{Service, Exchange, request_body}

-- What the loop comes to; there is no result where the fuel ends first.
abbrev pub Completed : Type 0
Completed = Exchange × Option (Result AppError (List Finding))

module _ (service : Service) (setting : Setting) where
  abbrev pub on_body : (Str → Exchange → Completed) → Exchange × Result AppError Str → Completed
  on_body continue (x, err e) = (x, some (err e))
  on_body continue (x, ok body) = continue body x

  abbrev pub on_next : (Str → Exchange → Completed) → Exchange → Next → Completed
  on_next continue x (finished result) = (x, some result)
  on_next continue x (next_request c) =
      on_body continue (request_body service setting (record x { conversation = c }))

  -- Each unit of fuel reads one answer.
  unfoldable pub complete_response : ℕ → Str → Exchange → Completed
  complete_response zero body x = (x, none)
  complete_response (suc fuel) body x =
      on_next (complete_response fuel) x (answer_body setting body x.conversation)
