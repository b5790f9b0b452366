-- ===== src/Review/Completion/Closing.antt =====
-- The conversation of src/review/ai.rs once its end is requested: which tools requests then offer.
use git_lab_work_runner.Base.{
  ℕ, true, List, [], ◌∷◌, ◌++◌, Str, codes, All, All-append, none, some, ◌≡◌, refl, sym, ap, ◌∙◌,
  append_assoc, append-nil, if◌then◌else◌, arith,
}
use git_lab_work_runner.Review.Completion.{Conversation, Setting, answer_body}
use git_lab_work_runner.Review.Completion.Requests.{
  ChatRequest, Service, Exchange, next_of, review_request, attempted, request_timeout_finalization,
}
use git_lab_work_runner.Review.Completion.Loop.{complete_response}
use git_lab_work_runner.Review.Completion.Cases.{answer_body-ways}
use git_lab_work_runner.Review.Completion.Invariants.{Kept, complete_keeps}

-- A request offers the submission of findings alone, or no tool in the JSON mode.
abbrev pub OffersNoContext : Setting → ChatRequest → Type 0
OffersNoContext setting request =
    request.tools
    ≡ (if setting.use_tool_calls then some (codes "submit_review_findings" ∷ []) else none)

module _ (service : Service) (setting : Setting) where
  next_of-OffersNoContext :
      (c : Conversation)
      → c.finalization_requested ≡ true
      → OffersNoContext setting (next_of service setting c)
  unfolding review_request
  next_of-OffersNoContext c closing = ground (arith, closing)

  -- Since `earlier` the requests offer no context tool.
  abbrev pub Closing : List ChatRequest → Exchange → Type 0
  Closing earlier x =
      (x.conversation.finalization_requested ≡ true)
      × (later : List ChatRequest) × (x.sent ≡ earlier ++ later)
      × All (OffersNoContext setting) later

  Closing-attempted :
      (earlier : List ChatRequest) (request : ChatRequest) (x : Exchange)
      → OffersNoContext setting request
      → Closing earlier x
      → Closing earlier (attempted service setting request x)
  Closing-attempted earlier request x q (closing, later, e, h) = (
    closing,
    later ++ request ∷ [],
    ap (λ sent. sent ++ request ∷ []) e ∙ append_assoc earlier later (request ∷ []),
    All-append (OffersNoContext setting) later (request ∷ []) h (q, tt),
  )

  answered-Closing :
      (earlier : List ChatRequest) (body : Str) (x : Exchange)
      → Closing earlier x
      → Kept
          (λ c. Closing earlier (record x { conversation = c }))
          (answer_body setting body x.conversation)
  answered-Closing earlier body x h =
      answer_body-ways setting (Kept (λ c. Closing earlier (record x { conversation = c })))
        x.conversation (λ result. tt) (λ e. (refl, h.1, h.2, h.3)) (λ e e'. h) (λ e. h)
        (λ message call rest going. absurd (ground (arith, h.0))) body

  -- Once the end of the conversation is requested, no later request offers a tool that reads the checkout.
  pub complete_response-Closing :
      (fuel : ℕ) (body : Str) (x : Exchange)
      → x.conversation.finalization_requested ≡ true
      → Closing x.sent (complete_response service setting fuel body x).0
  unfolding review_request request_timeout_finalization
  complete_response-Closing fuel body x closing =
      complete_keeps service setting (Closing x.sent) (OffersNoContext setting)
        (λ request y q h. Closing-attempted x.sent request y q h)
        (λ y h. next_of-OffersNoContext y.conversation h.0) (λ y h. (refl, h.1, h.2, h.3))
        (λ y h. ground arith) (answered-Closing x.sent) fuel body x
        (closing, [], sym (append-nil x.sent), tt)
