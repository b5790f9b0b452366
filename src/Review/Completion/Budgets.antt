-- ===== src/Review/Completion/Budgets.antt =====
-- The budgets of the conversation of src/review/ai.rs: the calls of the tools and the bytes of their
-- results.
use git_lab_work_runner.Base.{
  ℕ, ◌+◌, ◌-◌, ◌≤◌, min, max, true, ◌&&◌, ◌||◌, List, [], ◌∷◌, leb, ltb, ◌==◌, Str, byte_len, ◌≡◌,
  ◌⊎◌, inl, inr, Bool-cases, if_holds, if◌then◌else◌, sum_by, length, subst, arith,
}
use git_lab_work_runner.Review.Findings.{OpenAiToolCall, OpenAiMessage}
use git_lab_work_runner.Review.Tools.Bounds.{call_with_result_limit_bound}
use git_lab_work_runner.Review.Completion.{
  Conversation, Round, Setting, real_result, remaining, answer_call, answer_calls, bytes_left,
  answer_body, run_round, settle_round, budget_exhausted, request_finalization, known, usize_max,
  new_round,
}
use git_lab_work_runner.Review.Completion.Requests.{Service, Exchange, request_timeout_finalization}
use git_lab_work_runner.Review.Completion.Loop.{complete_response}
use git_lab_work_runner.Review.Completion.Cases.{answer_body-ways}
use git_lab_work_runner.Review.Completion.Invariants.{Kept, complete_keeps}

-- The bytes of the results that the calls of the log gave.
abbrev pub result_bytes : List (OpenAiToolCall × Str) → ℕ
result_bytes made = sum_by (λ (call : OpenAiToolCall × Str). byte_len call.1) made

-- The counters hold the number of the calls made and the bytes of their results, as far as a usize goes.
abbrev pub IsCounted : Conversation → Type 0
IsCounted c =
    (c.tool_calls_used ≡ length c.calls_made)
    × (c.tool_result_bytes_used ≡ min (result_bytes c.calls_made) usize_max)

module _ (setting : Setting) where
  -- The calls and the bytes so far are within the budgets that the configuration sets; 0 sets none.
  abbrev pub CallsWithin : ℕ → Type 0
  CallsWithin made = (setting.config.max_tool_calls ≡ 0) ⊎ (made ≤ setting.config.max_tool_calls)

  abbrev pub BytesWithin : ℕ → Type 0
  BytesWithin bytes =
      (setting.config.max_tool_total_bytes ≡ 0) ⊎ (bytes ≤ setting.config.max_tool_total_bytes)

  -- The calls that were made, by the log, are counted and within the budgets.
  abbrev pub WithinBudgets : Conversation → Type 0
  WithinBudgets c =
      IsCounted c × CallsWithin (length c.calls_made) × BytesWithin (result_bytes c.calls_made)

  -- In a round the calls are counted from those before it.
  abbrev RoundWithin : ℕ → ℕ → Round → Type 0
  RoundWithin start remaining_tool_calls r =
      (length r.conversation.calls_made ≡ start + r.real_calls_in_response)
      × (r.real_calls_in_response ≤ remaining_tool_calls)
      × IsCounted r.conversation
      × BytesWithin (result_bytes r.conversation.calls_made)

module _ (setting : Setting) (fits : setting.config.max_tool_total_bytes ≤ usize_max) where
  -- One more result is within the bytes, where the code sees that some are left.
  real_result_bound :
      (call : OpenAiToolCall) (c : Conversation)
      → bytes_left setting c ≡ true
      → IsCounted c
      → BytesWithin setting (result_bytes c.calls_made)
      → BytesWithin setting (byte_len (real_result setting call c) + result_bytes c.calls_made)
  real_result_bound call c h counted within =
      let total = setting.config.max_tool_total_bytes in
      let limit = setting.config.max_tool_result_bytes in
      let (bound, _) =
        call_with_result_limit_bound setting.outside setting.context call.name call.arguments
          (min limit (remaining total c.tool_result_bytes_used)) in
      within_total usize_max total limit c.tool_result_bytes_used (result_bytes c.calls_made)
        (byte_len (real_result setting call c)) fits counted.1 h bound within
    where
      within_total :
          (most total limit used bytes len : ℕ)
          → total ≤ most
          → used ≡ min bytes most
          → (total == 0 || leb 28 (if total == 0 then most else total - used)) ≡ true
          → len ≤ max (min limit (if total == 0 then most else total - used)) 1
          → (total ≡ 0) ⊎ (bytes ≤ total)
          → (total ≡ 0) ⊎ (len + bytes ≤ total)
      within_total most total limit used bytes len fits counted h bound within = ground arith

  saturating :
      (most used bytes len : ℕ)
      → used ≡ min bytes most
      → min (used + len) most ≡ min (len + bytes) most
  saturating most used bytes len h = omega arith

  answer_call-RoundWithin :
      (start remaining_tool_calls : ℕ) (call : OpenAiToolCall) (r : Round)
      → RoundWithin setting start remaining_tool_calls r
      → RoundWithin setting start remaining_tool_calls
          (answer_call setting remaining_tool_calls call r)
  unfolding answer_call
  answer_call-RoundWithin start remaining_tool_calls call r h =
      elim (Bool-cases
        (known (setting.cache_key call.name call.arguments) r.conversation.tool_cache)) [
          | inl y ↦ rw (y, answer_call) h
          | inr n ↦
              elim (Bool-cases (
                ltb r.real_calls_in_response remaining_tool_calls
                && bytes_left setting r.conversation)) [
                  | inl y ↦
                      rw (n, y, answer_call)
                        (
                          omega (arith, h.0),
                          ground arith,
                          (omega (arith, h.2.0), saturating usize_max _ _ _ h.2.1),
                          real_result_bound call r.conversation (ground arith) h.2 h.3,
                        )
                  | inr n' ↦ elim (Bool-cases (leb remaining_tool_calls r.real_calls_in_response)) [
                    | inl y ↦ rw (n, n', y, answer_call) h
                    | inr n'' ↦ rw (n, n', n'', answer_call) h
                  ]
                ]
        ]

  answer_calls-RoundWithin :
      (start remaining_tool_calls : ℕ) (calls : List OpenAiToolCall) (r : Round)
      → RoundWithin setting start remaining_tool_calls r
      → RoundWithin setting start remaining_tool_calls
          (answer_calls setting remaining_tool_calls calls r)
  unfolding answer_calls
  answer_calls-RoundWithin start remaining_tool_calls [] r h = h
  answer_calls-RoundWithin start remaining_tool_calls (call ∷ rest) r h =
      answer_calls-RoundWithin start remaining_tool_calls rest _
        (answer_call-RoundWithin start remaining_tool_calls call r h)

  request_finalization-WithinBudgets :
      (c : Conversation) → WithinBudgets setting c → WithinBudgets setting (request_finalization c)
  unfolding request_finalization
  request_finalization-WithinBudgets c h = elim (Bool-cases c.finalization_requested) [
    | inl y ↦ rw (y, request_finalization) h
    | inr n ↦ rw (n, request_finalization) h
  ]

  settle_round-WithinBudgets :
      (start : ℕ) (r : Round)
      → CallsWithin setting start
      → RoundWithin setting start (remaining setting.config.max_tool_calls start) r
      → WithinBudgets setting (settle_round setting r)
  settle_round-WithinBudgets start r before h =
      if_holds (WithinBudgets setting) (budget_exhausted setting r) _ _
        (λ y. request_finalization-WithinBudgets r.conversation within) (λ n. within)
    where
      within : WithinBudgets setting r.conversation
      within = (h.2, ground (arith, h.0, h.1), h.3)

  run_round-WithinBudgets :
      (message : OpenAiMessage) (calls : List OpenAiToolCall) (c : Conversation)
      → WithinBudgets setting c
      → WithinBudgets setting (run_round setting message calls c)
  run_round-WithinBudgets message calls c h =
      settle_round-WithinBudgets (length c.calls_made) _ h.1 (
        subst
          (λ used.
            RoundWithin setting (length c.calls_made) (remaining setting.config.max_tool_calls used)
              (answer_calls setting (remaining setting.config.max_tool_calls c.tool_calls_used)
                calls (new_round message calls c)))
          h.0.0
          (answer_calls-RoundWithin (length c.calls_made) _ calls _
            (omega arith, omega arith, h.0, h.2)))

  answer_body-WithinBudgets :
      (body : Str) (c : Conversation)
      → WithinBudgets setting c
      → Kept (WithinBudgets setting) (answer_body setting body c)
  answer_body-WithinBudgets body c h =
      answer_body-ways setting (Kept (WithinBudgets setting)) c (λ result. tt) (λ e. h) (λ e e'. h)
        (λ e. h) (λ message call rest e. run_round-WithinBudgets message _ _ h) body

  -- However the model and the service behave, the calls that the tools carry out in a conversation are no
  -- more than `max_tool_calls` and the bytes of all the results they give no more than
  -- `max_tool_total_bytes`, where these are set, and the code's two counters agree with the calls made.
  -- The conditions are that this is so where the conversation goes on from (as it is with no calls made),
  -- and that `max_tool_total_bytes` is a usize.
  pub complete_response-WithinBudgets :
      (service : Service) (fuel : ℕ) (body : Str) (x : Exchange)
      → WithinBudgets setting x.conversation
      → WithinBudgets setting (complete_response service setting fuel body x).0.conversation
  unfolding request_timeout_finalization
  complete_response-WithinBudgets service =
      complete_keeps service setting (λ x. WithinBudgets setting x.conversation)
        (λ request. Unit {0}) (λ request x q h. h) (λ x h. tt) (λ x h. h) (λ x h. tt)
        (λ body x h. answer_body-WithinBudgets body x.conversation h)
