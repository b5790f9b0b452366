-- ===== src/Review/Completion/Fuel.antt =====
-- Why the conversation of src/review/ai.rs ends: each answer that does not end it uses up one of the
-- recoveries or one of the rounds that the configuration admits.
use git_lab_work_runner.Base.{
  ℕ, suc, ◌+◌, ◌-◌, ◌≤◌, ◌<◌, Bool, true, false, not, ◌&&◌, ◌||◌, leb, ◌==◌, List, [], ◌∷◌, Str,
  ◌≡◌, ◌⊎◌, ◌≢◌, refl, ◌∙◌, inl, inr, if◌then◌else◌, arith,
}
use git_lab_work_runner.Review.Findings.{OpenAiToolCall, OpenAiMessage}
use git_lab_work_runner.Review.Completion.{
  Conversation, Round, Setting, answer_call, answer_calls, answer_body, run_round, settle_round,
  new_round, remaining, begin_round, budget_exhausted, request_finalization,
  synthesize_context_tool_call_ids, with_id,
}
use git_lab_work_runner.Review.Completion.Requests.{
  Service, Exchange, request_body, request_timeout_finalization,
}
use git_lab_work_runner.Review.Completion.Cases.{
  answer_body-ways, answer_call-ways, settle_round-ways,
}
use git_lab_work_runner.Review.Completion.Invariants.{Kept, request_body_keeps}

module _ (setting : Setting) where
  -- The rounds that are left, by the limit of rounds, or by the limit of calls where rounds have none.
  abbrev pub rounds_left : Conversation → ℕ
  rounds_left c =
      if c.finalization_requested
      then 0
      else suc (
          if setting.config.max_tool_rounds == 0
          then setting.config.max_tool_calls - suc c.tool_calls_used
          else setting.config.max_tool_rounds - suc c.tool_rounds_used)

  abbrev unused : Bool → ℕ
  unused flag = if flag then 0 else 1

  -- The requests that can still be needed.
  abbrev pub turns_left : Conversation → ℕ
  turns_left c =
      unused c.malformed_finalization_retry_requested
      + unused c.diff_only_fallback_requested
      + unused c.unavailable_context_tool_notice_sent
      + rounds_left c

  abbrev pub IsLimited : Type 0
  IsLimited = (setting.config.max_tool_rounds ≢ 0) ⊎ (setting.config.max_tool_calls ≢ 0)

  -- The calls of a round change the counters and the messages alone.
  abbrev Tracks : Conversation → Round → Type 0
  Tracks c r =
      let c' = r.conversation in
      (c'.malformed_finalization_retry_requested ≡ c.malformed_finalization_retry_requested)
      × (c'.diff_only_fallback_requested ≡ c.diff_only_fallback_requested)
      × (c'.unavailable_context_tool_notice_sent ≡ c.unavailable_context_tool_notice_sent)
      × (c'.finalization_requested ≡ c.finalization_requested)
      × (c'.tool_rounds_used ≡ c.tool_rounds_used)
      × (c'.tool_calls_used ≡ c.tool_calls_used + r.real_calls_in_response)

  -- A call was made, or the round leads to the end.
  abbrev Progress : ℕ → Round → Type 0
  Progress remaining_tool_calls r =
      (r.cache_hit_requires_finalization ≡ true)
      ⊎ ((r.tool_byte_limit_reached ≡ true) × ((setting.config.max_tool_total_bytes == 0) ≡ false))
      ⊎ (1 ≤ r.real_calls_in_response)
      ⊎ (remaining_tool_calls ≡ 0)

  answer_call-Tracks :
      (c : Conversation) (remaining_tool_calls : ℕ) (call : OpenAiToolCall) (r : Round)
      → Tracks c r
      → Tracks c (answer_call setting remaining_tool_calls call r)
        × Progress remaining_tool_calls (answer_call setting remaining_tool_calls call r)
  answer_call-Tracks c remaining_tool_calls call r h =
      answer_call-ways setting (λ r'. Tracks c r' × Progress remaining_tool_calls r')
        remaining_tool_calls call r (h, inl refl)
        (λ y. ((h.0, h.1, h.2, h.3, h.4, omega (arith, h.5)), inr (inr (inl (omega arith)))))
        (λ y. (h, inr (inr (ground arith)))) (λ n n'. (h, inr (inl (refl, ground arith))))

  answer_calls-Tracks :
      (c : Conversation) (remaining_tool_calls : ℕ) (call : OpenAiToolCall)
      (rest : List OpenAiToolCall) (r : Round)
      → Tracks c r
      → Tracks c (answer_calls setting remaining_tool_calls (call ∷ rest) r)
        × Progress remaining_tool_calls (answer_calls setting remaining_tool_calls (call ∷ rest) r)
  unfolding answer_calls
  answer_calls-Tracks c remaining_tool_calls call [] r h =
      answer_call-Tracks c remaining_tool_calls call r h
  answer_calls-Tracks c remaining_tool_calls call (next ∷ rest) r h =
      answer_calls-Tracks c remaining_tool_calls next rest
        (answer_call setting remaining_tool_calls call r)
        (answer_call-Tracks c remaining_tool_calls call r h).0

  -- A round that leaves budget has made a call.
  open_round :
      (c : Conversation) (r : Round)
      → Tracks (begin_round c) r
      → Progress (remaining setting.config.max_tool_calls c.tool_calls_used) r
      → IsLimited
      → budget_exhausted setting r ≡ false
      → (if setting.config.max_tool_rounds == 0
          then setting.config.max_tool_calls - suc r.conversation.tool_calls_used
          else setting.config.max_tool_rounds - suc r.conversation.tool_rounds_used)
        < (if setting.config.max_tool_rounds == 0
            then setting.config.max_tool_calls - suc c.tool_calls_used
            else setting.config.max_tool_rounds - suc c.tool_rounds_used)
  open_round c r h progress limited going =
      fewer setting.config.max_tool_rounds setting.config.max_tool_calls
        setting.config.max_tool_total_bytes c.tool_rounds_used r.conversation.tool_rounds_used
        c.tool_calls_used r.conversation.tool_calls_used r.real_calls_in_response
        r.conversation.tool_result_bytes_used r.tool_byte_limit_reached
        r.cache_hit_requires_finalization h.4 h.5 progress limited going
    where
      fewer :
          (max_rounds max_calls total rounds rounds' calls calls' real bytes : ℕ)
          (byte_limit cache_hit : Bool)
          → rounds' ≡ rounds + 1
          → calls' ≡ calls + real
          → (cache_hit ≡ true)
            ⊎ ((byte_limit ≡ true) × ((total == 0) ≡ false))
            ⊎ (1 ≤ real)
            ⊎ (remaining max_calls calls ≡ 0)
          → (max_rounds ≢ 0) ⊎ (max_calls ≢ 0)
          → ((not (max_calls == 0) && leb max_calls calls')
              || (not (max_rounds == 0) && leb max_rounds rounds')
              || (not (total == 0) && (leb total bytes || byte_limit))
              || cache_hit)
            ≡ false
          → (if max_rounds == 0 then max_calls - suc calls' else max_rounds - suc rounds')
            < (if max_rounds == 0 then max_calls - suc calls else max_rounds - suc rounds)
      fewer max_rounds max_calls total rounds rounds' calls calls' real bytes byte_limit cache_hit e
            e' progress limited going =
          ground arith

  -- Turns by the flags and the rounds, with the flags of the conversation before.
  fewer_turns :
      (m m' d d' u u' : Bool) (before after : ℕ)
      → m' ≡ m
      → d' ≡ d
      → u' ≡ u
      → after < before
      → unused m' + unused d' + unused u' + after < unused m + unused d + unused u + before
  fewer_turns m m' d d' u u' before after e e' e'' less = rw (e, e', e'') (omega (arith, less))

  settle_round-turns :
      (c : Conversation) (r : Round)
      → c.finalization_requested ≡ false
      → Tracks (begin_round c) r
      → Progress (remaining setting.config.max_tool_calls c.tool_calls_used) r
      → IsLimited
      → turns_left (settle_round setting r) < turns_left c
  unfolding request_finalization
  settle_round-turns c r going h progress limited =
      settle_round-ways setting (λ c'. turns_left c' < turns_left c) r
        (λ y.
          let r_going : r.conversation.finalization_requested ≡ false = h.3 ∙ going in
          rw (r_going, request_finalization)
            (fewer_turns c.malformed_finalization_retry_requested _ c.diff_only_fallback_requested _
              c.unavailable_context_tool_notice_sent _ (rounds_left c) 0 h.0 h.1 h.2
              (rw going (omega arith))))
        (λ n.
          fewer_turns c.malformed_finalization_retry_requested
            r.conversation.malformed_finalization_retry_requested c.diff_only_fallback_requested
            r.conversation.diff_only_fallback_requested c.unavailable_context_tool_notice_sent
            r.conversation.unavailable_context_tool_notice_sent (rounds_left c)
            (rounds_left r.conversation) h.0 h.1 h.2
            (rw (going, h.3) (rw going (omega (arith, open_round c r h progress limited n)))))

  run_round-turns :
      (message : OpenAiMessage) (call : OpenAiToolCall) (rest : List OpenAiToolCall)
      (c : Conversation)
      → c.finalization_requested ≡ false
      → IsLimited
      → turns_left (
          run_round setting message
            (synthesize_context_tool_call_ids 1 (call ∷ rest))
            (begin_round c))
        < turns_left c
  run_round-turns message call rest c going limited =
      let calls = synthesize_context_tool_call_ids 1 (call ∷ rest) in
      let start = new_round message calls (begin_round c) in
      let budget = remaining setting.config.max_tool_calls c.tool_calls_used in
      let (h, progress) =
        answer_calls-Tracks (begin_round c) budget (with_id 1 call)
          (synthesize_context_tool_call_ids 2 rest) start
          (refl, refl, refl, refl, refl, omega arith) in
      settle_round-turns c (answer_calls setting budget calls start) going h progress limited

  -- Each answer that does not end the conversation leaves fewer turns.
  pub answer_body-turns :
      (body : Str) (c : Conversation)
      → IsLimited
      → Kept (λ c'. turns_left c' < turns_left c) (answer_body setting body c)
  answer_body-turns body c limited =
      answer_body-ways setting (Kept (λ c'. turns_left c' < turns_left c)) c (λ result. tt)
        (λ e. ground arith) (λ e e'. ground arith) (λ e. ground arith)
        (λ message call rest going. run_round-turns message call rest c going limited) body

  -- Neither do repeated requests and timeouts bring turns back.
  pub request_body-turns :
      (service : Service) (x : Exchange)
      → turns_left (request_body service setting x).0.conversation ≤ turns_left x.conversation
  unfolding request_timeout_finalization
  request_body-turns service x =
      request_body_keeps service setting
        (λ y. turns_left y.conversation ≤ turns_left x.conversation) (λ request. Unit {0})
        (λ request y q h. h) (λ y h. tt) (λ y h. ground (arith, h)) (λ y h. tt) x (omega arith)
