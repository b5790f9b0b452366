-- ===== src/Lib.antt =====
-- GitLab work runner: a service that receives GitLab webhooks, reviews merge requests with an AI
-- service and runs script tasks on them. This library models the parts of it that decide: which
-- requests are admitted and how they are answered, how a diff is read, cut and packed into batches,
-- what the model may read of the checkout, how the conversation with it goes on and ends, what a run
-- over the batches reports, which findings are accepted, and what an archive may write.
--
-- The parts and their files, with the code that each one models:
--   Base            shared names, texts as lists of code points, maps, decimal numbers, results
--   App/Error       src/app/error.rs: AppError, ReviewErrorCode and their texts
--   App/ActiveReviews   src/app/active_reviews.rs: the map behind the mutex; try_start, finish, and the
--                   drop of a guard. Worlds holds the steps of any interleaving of them
--   App/ScriptScheduler src/app/script_scheduler.rs: the counts behind the mutex; try_acquire and the
--                   drop of a permit, with Worlds as above
--   App/Webhook     src/app/webhook.rs: the token and the events of a body
--   App/Server      src/app/server.rs: the handler gitlab_webhook with the answers of
--                   src/app/webhook_response.rs, the token of src/app/config.rs, and the ids that
--                   manual_review_ids of src/review/service.rs reads in a note
--   Review/Diff     src/review/diff.rs: parse_unified_diff, one definition per branch of its loop
--   Review/Format   src/review/ai.rs: format_diff_hunk and diff_hunk_from_lines
--   Review/WorkItems    src/review/ai.rs: build_review_work_items and what it calls
--   Review/Coverage src/review/ai.rs: summarize_planned_work_items
--   Review/Batches  src/review/ai.rs: plan_ai_review_batches, run_batched_ai_review and
--                   apply_batch_failure_coverage
--   Review/Tools    src/review/ai_tools.rs: the paths a tool may read (Paths; its Names, Normal and
--                   Secrets are on the components, the trimming and the blocked names), the walk of the
--                   checkout (Walk), read_file, search_code and list_files (Calls), the cut of a result
--                   (Truncation), and the key of a repeated call (CacheKeys)
--   Review/Messages src/review/ai.rs: the messages that close a conversation, with the summary of what
--                   the tools found
--   Review/Prompts  src/review/ai_prompt.rs: build_review_prompt_with_options with the payload of the
--                   changes and its limit, and the limit of a batch in src/review/ai.rs
--   Review/Completion   src/review/ai.rs: complete_ai_review_response. An answer of the model, with the
--                   budgets of its tool calls, is a step of Conversation, which holds the code's
--                   variables and a log of the calls that were carried out (calls_made); Requests
--                   sends the next request, with its second attempt; Loop joins them
--   Review/Single   src/review/ai.rs: run_ai_review_single, the first request with its fallback to
--                   plain JSON, then the conversation, then the findings on added lines
--   Review/BatchReview  src/review/ai.rs: what run_batched_ai_review passes to run_ai_review_single
--   Review/Findings src/review/ai.rs: parse_final_findings_candidates, normalize_ai_findings,
--                   canonical_findings and filter_findings_to_added_lines
--   Review/Comments src/review/comments.rs: build_comment_drafts
--   Review/Http     src/review/ai.rs: the classes of answers of the AI service
--   Review/Archive  src/review/archive.rs: extract_zip_archive, with the effects on the file system as a
--                   list that each outcome carries
--   Review/Rules    src/review/rules.rs: Ruleset::from_toml and its selections
--   Tests           concrete inputs
-- The webhook handler asks the registry and the scheduler for admission; a review takes its changes,
-- plans batches of work items from the parsed diffs, reviews each batch in a conversation that may
-- call the tools, and keeps the findings on added lines, which become comments; the coverage of the
-- plan says what was left out.
--
-- Bounds: byte and file counts (usize) are unbounded numbers, except that the tool budgets are compared
-- with usize::MAX = 2^64 - 1 where the code does so; u32 sums wrap in the diff parser and saturate where
-- the code saturates. Loops are by recursion on their list, with three on fuel. The cut of a text by
-- bytes takes a character in each round, so the number of characters is enough; the search for the
-- longest part of a result that fits halves an interval, whose length is enough. The conversation
-- reads an answer for each unit of fuel; it has no bound of its own where the calls and the rounds are
-- unlimited, and with a limit on the calls or the rounds a number that depends only on the limits is
-- enough. A panic of the diff parser is a result of its own, which the callers pass on.
--
-- Parameters: the JSON and TOML parsers and printers, the digest of the rules, the rules file as it is
-- read, the UTF-8 decoder, the file system (a tree of entries that holds still during a review,
-- canonicalize and the contents; for an extraction its answers to the effects), the ZIP library, the
-- compiled globs, the text of SYSTEM_PROMPT, the boundary of a prompt, and the AI service, whose answer
-- depends on the number of requests so far and on the request. Not modelled: the schemas of the tools,
-- the threads and clocks of the HTTP transport, the review and script services, the clean-up of work
-- directories, the GitLab client, storage, the dashboard, and start-up; they are mostly calls of other
-- systems. Logs and progress events are left out.
mod Base
pub mod App
pub mod Review
mod Tests
