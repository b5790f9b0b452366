-- ===== src/Review/Completion/Sent.antt =====
-- What the conversation of src/review/ai.rs sends: the messages of every request, the tools that requests
-- offer, and the number of requests.
use git_lab_work_runner.Base.{
  ℕ, Bool, List, [], ◌∷◌, ◌++◌, Str, All, All-append, length, take, ◌≡◌, refl, sym, ap,
  append_assoc, append-nil, Bool-cases, inl, inr,
}
use git_lab_work_runner.Review.Findings.{OpenAiToolCall, OpenAiMessage}
use git_lab_work_runner.Review.Messages.{ChatMessage, timeout_finalization, diff_only_finalization}
use git_lab_work_runner.Review.Completion.{
  Conversation, Round, Setting, answer_call, answer_calls, answer_body, run_round, new_round,
  remaining, begin_round, request_finalization,
}
use git_lab_work_runner.Review.Completion.Requests.{
  ChatRequest, Service, Exchange, review_request, request_timeout_finalization,
}
use git_lab_work_runner.Review.Completion.Loop.{complete_response}
use git_lab_work_runner.Review.Completion.Cases.{
  answer_body-ways, answer_call-ways, settle_round-ways,
}
use git_lab_work_runner.Review.Completion.Invariants.{Kept, complete_keeps}

-- The messages begin with the given ones.
abbrev pub Begins : List ChatMessage → List ChatMessage → Type 0
Begins base messages = (rest : List ChatMessage) × (messages ≡ base ++ rest)

take-prefix : (base rest : List ChatMessage) → take (length base) (base ++ rest) ≡ base
take-prefix [] rest = refl
take-prefix (m ∷ base) rest = ap (◌∷◌ m) (take-prefix base rest)

Begins-append :
    (base messages more : List ChatMessage) → Begins base messages → Begins base (messages ++ more)
Begins-append base messages more (rest, e) = (rest ++ more, rw e (append_assoc base rest more))

Begins-cut :
    (base messages : List ChatMessage) (n : ℕ)
    → n ≡ length base
    → Begins base messages
    → Begins base (take n messages)
Begins-cut base messages n at_base (rest, e) =
    ([], rw (at_base, e, take-prefix base rest) (sym (append-nil base)))

timeout_finalization-Begins :
    (base messages : List ChatMessage) (n : ℕ) (use_tool_calls malformed_retry diff_only : Bool)
    → n ≡ length base
    → Begins base messages
    → Begins base (timeout_finalization messages n use_tool_calls malformed_retry diff_only)
unfolding timeout_finalization
timeout_finalization-Begins base messages n use_tool_calls malformed_retry diff_only at_base h =
    Begins-append base _ _ (Begins-append base _ _ (Begins-cut base messages n at_base h))

diff_only_finalization-Begins :
    (base messages : List ChatMessage) (n : ℕ)
    → n ≡ length base
    → Begins base messages
    → Begins base (diff_only_finalization messages n)
unfolding diff_only_finalization
diff_only_finalization-Begins base messages n at_base h =
    Begins-append base _ _ (Begins-cut base messages n at_base h)

module _ (setting : Setting) (base : List ChatMessage) where
  abbrev Speaks : Conversation → Type 0
  Speaks c = Begins base c.messages

  answer_call-Speaks :
      (remaining_tool_calls : ℕ) (call : OpenAiToolCall) (r : Round)
      → Speaks r.conversation
      → Speaks (answer_call setting remaining_tool_calls call r).conversation
  answer_call-Speaks remaining_tool_calls call r h =
      answer_call-ways setting (λ r'. Begins base r'.conversation.messages) remaining_tool_calls
        call r (spoken _) (λ y. spoken _) (λ y. spoken _) (λ n n'. spoken _)
    where
      spoken : (m : ChatMessage) → Begins base (r.conversation.messages ++ m ∷ [])
      spoken m = Begins-append base r.conversation.messages (m ∷ []) h

  answer_calls-Speaks :
      (remaining_tool_calls : ℕ) (calls : List OpenAiToolCall) (r : Round)
      → Speaks r.conversation
      → Speaks (answer_calls setting remaining_tool_calls calls r).conversation
  unfolding answer_calls
  answer_calls-Speaks remaining_tool_calls [] r h = h
  answer_calls-Speaks remaining_tool_calls (call ∷ rest) r h =
      answer_calls-Speaks remaining_tool_calls rest _
        (answer_call-Speaks remaining_tool_calls call r h)

  request_finalization-Speaks : (c : Conversation) → Speaks c → Speaks (request_finalization c)
  unfolding request_finalization
  request_finalization-Speaks c h = elim (Bool-cases c.finalization_requested) [
    | inl y ↦ rw (y, request_finalization) h
    | inr n ↦ rw (n, request_finalization) (Begins-append base c.messages _ h)
  ]

  run_round-Speaks :
      (message : OpenAiMessage) (calls : List OpenAiToolCall) (c : Conversation)
      → Speaks c
      → Speaks (run_round setting message calls c)
  run_round-Speaks message calls c h =
      let r =
        answer_calls setting (remaining setting.config.max_tool_calls c.tool_calls_used) calls
          (new_round message calls c) in
      let said =
        answer_calls-Speaks (remaining setting.config.max_tool_calls c.tool_calls_used) calls
          (new_round message calls c) (Begins-append base c.messages _ h) in
      settle_round-ways setting Speaks r (λ y. request_finalization-Speaks r.conversation said)
        (λ n. said)

  -- With the base as the first messages, the conversation and all its requests begin with it.
  abbrev pub BeginWithBase : Exchange → Type 0
  BeginWithBase x =
      Begins base x.conversation.messages
      × All (λ (request : ChatRequest). Begins base request.messages) x.sent

  module _ (at_base : setting.base_message_count ≡ length base) where
    answered-BeginWithBase :
        (body : Str) (x : Exchange)
        → BeginWithBase x
        → Kept
            (λ c. BeginWithBase (record x { conversation = c }))
            (answer_body setting body x.conversation)
    answered-BeginWithBase body x h =
        let c = x.conversation in
        answer_body-ways setting (Kept (λ c. BeginWithBase (record x { conversation = c }))) c
          (λ result. tt) (λ e. (Begins-append base c.messages _ h.0, h.1))
          (λ e e'. (
            diff_only_finalization-Begins base c.messages setting.base_message_count at_base h.0,
            h.1,
          ))
          (λ e. (Begins-append base c.messages _ h.0, h.1))
          (λ message call rest e. (run_round-Speaks message _ (begin_round c) h.0, h.1)) body

    -- Whatever the model answers and however often requests are repeated or closed, every request begins
    -- with the messages that the conversation began with.
    pub complete_response-BeginWithBase :
        (service : Service) (fuel : ℕ) (body : Str) (x : Exchange)
        → BeginWithBase x
        → BeginWithBase (complete_response service setting fuel body x).0
    unfolding review_request request_timeout_finalization
    complete_response-BeginWithBase service =
        complete_keeps service setting BeginWithBase (λ request. Begins base request.messages)
          (λ request x q h. (h.0, All-append _ x.sent (request ∷ []) h.1 (q, tt))) (λ x h. h.0)
          (λ x h. (closed x h, h.1)) closed answered-BeginWithBase
      where
        closed :
            (x : Exchange)
            → BeginWithBase x
            → Begins base (request_timeout_finalization service setting x).conversation.messages
        closed x h =
            timeout_finalization-Begins base x.conversation.messages setting.base_message_count _ _
              _ at_base h.0
