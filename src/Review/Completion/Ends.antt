-- ===== src/Review/Completion/Ends.antt =====
-- The end of the conversation of src/review/ai.rs, and how many requests it takes.
use git_lab_work_runner.Base.{
  ℕ, zero, suc, ◌+◌, ◌*◌, ◌≤◌, ◌<◌, ltb, [], ◌∷◌, Str, length, length-append, Result, ok, err, none,
  some, ◌≡◌, arith,
}
use git_lab_work_runner.App.Error.{AppError}
use git_lab_work_runner.Review.Completion.{Setting, Next, finished, next_request, answer_body}
use git_lab_work_runner.Review.Completion.Requests.{
  ChatRequest, Service, Exchange, follow_up, request_body, attempted, request_timeout_finalization,
}
use git_lab_work_runner.Review.Completion.Loop.{Completed, complete_response, on_next, on_body}
use git_lab_work_runner.Review.Completion.Cases.{after_attempt-ways}
use git_lab_work_runner.Review.Completion.Invariants.{Kept}
use git_lab_work_runner.Review.Completion.Fuel.{
  IsLimited, turns_left, answer_body-turns, request_body-turns,
}

module _ (service : Service) (setting : Setting) where
  follow_up-sent :
      (left : ℕ) (request : ChatRequest) (e : AppError) (x : Exchange)
      → length (follow_up service setting left request e x).0.sent ≤ length x.sent + left
  unfolding follow_up request_timeout_finalization
  follow_up-sent zero request e x = omega arith
  follow_up-sent (suc left) request e x =
      let x' = attempted service setting request x in
      let one_more : length x'.sent ≡ length x.sent + 1 = length-append x.sent (request ∷ []) in
      after_attempt-ways service setting (follow_up service setting left) request x'
        (λ r. length r.0.sent ≤ length x.sent + suc left) (λ result. omega (arith, one_more))
        (λ e'. omega (
          arith,
          one_more,
          follow_up-sent left _ e' (request_timeout_finalization service setting x'),
        ))
        (λ e'. omega (arith, one_more, follow_up-sent left request e' x')) (ltb 0 left)
        (service.answer (length x.sent) request)

  -- One turn makes two requests at most.
  pub request_body-sent :
      (x : Exchange) → length (request_body service setting x).0.sent ≤ length x.sent + 2
  unfolding request_body
  request_body-sent x = follow_up-sent 2 _ _ x

  -- A run has a result, after no more than the given number of requests.
  abbrev pub EndsWithin : ℕ → Completed → Type 0
  EndsWithin requests (x, none) = ⊥
  EndsWithin requests (x, some result) = length x.sent ≤ requests

  on_body-ends :
      (fuel requests : ℕ) (r : Exchange × Result AppError Str)
      → length r.0.sent ≤ requests
      → ((body : Str) → EndsWithin requests (complete_response service setting fuel body r.0))
      → EndsWithin requests (on_body service setting (complete_response service setting fuel) r)
  on_body-ends fuel requests (x, err e) short ends = short
  on_body-ends fuel requests (x, ok body) short ends = ends body

  -- Where the configuration limits the rounds or the calls of the tools, the conversation ends, whatever
  -- the model and the service answer: with the turns that are left as fuel it has a result, and each
  -- turn has made two requests at most.
  pub complete_response-ends :
      (fuel : ℕ) (body : Str) (x : Exchange) (requests : ℕ)
      → IsLimited setting
      → turns_left setting x.conversation < fuel
      → length x.sent + 2 * turns_left setting x.conversation ≤ requests
      → EndsWithin requests (complete_response service setting fuel body x)
  unfolding complete_response
  complete_response-ends zero body x requests limited enough short = absurd (omega arith)
  complete_response-ends (suc fuel) body x requests limited enough short =
      after_answer (answer_body setting body x.conversation)
        (answer_body-turns setting body x.conversation limited)
        (λ body' x'. complete_response-ends fuel body' x' requests limited)
    where
      after_answer :
          (next : Next)
          → Kept (λ c. turns_left setting c < turns_left setting x.conversation) next
          → ((body' : Str) (x' : Exchange)
              → turns_left setting x'.conversation < fuel
              → length x'.sent + 2 * turns_left setting x'.conversation ≤ requests
              → EndsWithin requests (complete_response service setting fuel body' x'))
          → EndsWithin requests
              (on_next service setting (complete_response service setting fuel) x next)
      after_answer (finished result) fewer again = omega arith
      after_answer (next_request c) fewer again =
          let x' : Exchange = record x { conversation = c } in
          let turns = request_body-turns setting service x' in
          let sent = request_body-sent x' in
          on_body-ends fuel requests (request_body service setting x') (omega (arith, sent, fewer))
            (λ body'.
              again body' (request_body service setting x').0 (omega (arith, turns, fewer))
                (omega (arith, turns, sent, fewer)))
