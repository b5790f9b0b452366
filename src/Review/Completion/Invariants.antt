-- ===== src/Review/Completion/Invariants.antt =====
-- Invariants of the loop of src/review/ai.rs over answers and requests.
use git_lab_work_runner.Base.{ℕ, zero, suc, ltb, Str, Result, ok, err, length}
use git_lab_work_runner.App.Error.{AppError}
use git_lab_work_runner.Review.Completion.{
  Conversation, Setting, Next, finished, next_request, answer_body,
}
use git_lab_work_runner.Review.Completion.Requests.{
  ChatRequest, Service, Exchange, follow_up, request_body, request_timeout_finalization, attempted,
  next_of, closing_request,
}
use git_lab_work_runner.Review.Completion.Cases.{after_attempt-ways}
use git_lab_work_runner.Review.Completion.Loop.{Completed, complete_response, on_next, on_body}

-- A predicate holds of the conversation that goes on, if one does.
abbrev pub Kept {ℓ} : (Conversation → Type ℓ) → Next → Type ℓ
Kept P (finished result) = Unit
Kept P (next_request c) = P c

-- `P` is kept by every answer, by every request that `Q` admits, and by the finalization that a timeout
-- leads to; `Q` admits the requests that are made.
module _ {ℓ} (service : Service) (setting : Setting) (P : Exchange → Type ℓ)
    (Q : ChatRequest → Type ℓ)
    (sends : (request : ChatRequest) (x : Exchange)
      → Q request
      → P x
      → P (attempted service setting request x))
    (admits : (x : Exchange) → P x → Q (next_of service setting x.conversation))
    (closes : (x : Exchange) → P x → P (request_timeout_finalization service setting x))
    (admits_closing : (x : Exchange)
      → P x
      → Q (closing_request service setting (request_timeout_finalization service setting x))) where
  follow_up_keeps :
      (left : ℕ) (request : ChatRequest) (e : AppError) (x : Exchange)
      → Q request
      → P x
      → P (follow_up service setting left request e x).0
  unfolding follow_up
  follow_up_keeps zero request e x q p = p
  follow_up_keeps (suc left) request e x q p =
      let x' = attempted service setting request x in
      let p' = sends request x q p in
      after_attempt-ways service setting (follow_up service setting left) request x' (λ r. P r.0)
        (λ result. p') (λ e. follow_up_keeps left _ e _ (admits_closing x' p') (closes x' p'))
        (λ e. follow_up_keeps left request e x' q p') (ltb 0 left)
        (service.answer (length x.sent) request)

  on_body_keeps :
      (continue : Str → Exchange → Completed)
      → ((body : Str) (x : Exchange) → P x → P (continue body x).0)
      → (r : Exchange × Result AppError Str) → P r.0
      → P (on_body service setting continue r).0
  on_body_keeps continue keeps (x, err e) p = p
  on_body_keeps continue keeps (x, ok body) p = keeps body x p

  pub request_body_keeps : (x : Exchange) → P x → P (request_body service setting x).0
  unfolding request_body
  request_body_keeps x p =
      follow_up_keeps 2 (next_of service setting x.conversation) _ x (admits x p) p

  module _
      (answered : (body : Str) (x : Exchange)
        → P x
        → Kept
            (λ c. P (record x { conversation = c }))
            (answer_body setting body x.conversation)) where
    on_next_keeps :
        (continue : Str → Exchange → Completed)
        → ((body : Str) (x : Exchange) → P x → P (continue body x).0)
        → (x : Exchange) → P x
        → (next : Next) → Kept (λ c. P (record x { conversation = c })) next
        → P (on_next service setting continue x next).0
    on_next_keeps continue keeps x p (finished result) k = p
    on_next_keeps continue keeps x p (next_request c) k =
        on_body_keeps continue keeps (request_body service setting (record x { conversation = c }))
          (request_body_keeps (record x { conversation = c }) k)

    pub complete_keeps :
        (fuel : ℕ) (body : Str) (x : Exchange)
        → P x
        → P (complete_response service setting fuel body x).0
    unfolding complete_response
    complete_keeps zero body x p = p
    complete_keeps (suc fuel) body x p =
        on_next_keeps (complete_response service setting fuel) (complete_keeps fuel) x p
          (answer_body setting body x.conversation) (answered body x p)
