-- ===== src/Review/Tools/Bounds.antt =====
-- The size of what a context tool of src/review/ai_tools.rs returns.
use git_lab_work_runner.Base.{ℕ, ◌≤◌, min, max, Str, byte_len, arith}
use git_lab_work_runner.Review.Tools.Truncation.{truncate_json_result_bound}
use git_lab_work_runner.Review.Tools.Calls.{
  Outside, AiReviewToolContext, call_with_result_limit, tool_value,
}

-- Whatever the tool and its arguments, the result of a call is at most as long as the limit of the call
-- and the limit of the context, where both admit one byte at least.
pub call_with_result_limit_bound :
    (outside : Outside) (context : AiReviewToolContext) (name arguments : Str)
    (max_result_bytes : ℕ)
    → (byte_len (call_with_result_limit outside context name arguments max_result_bytes)
        ≤ max max_result_bytes 1)
      × (byte_len (call_with_result_limit outside context name arguments max_result_bytes)
          ≤ max context.max_result_bytes 1)
unfolding call_with_result_limit
call_with_result_limit_bound outside context name arguments max_result_bytes =
    let bound =
      truncate_json_result_bound outside.to_string (tool_value outside context name arguments)
        (min context.max_result_bytes (max max_result_bytes 1)) in
    (omega (arith, bound), omega (arith, bound))
