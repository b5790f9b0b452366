-- ===== src/Review.antt =====
-- src/review: diffs, work items, batches and coverage, prompts, context tools, the conversation with the
-- model, findings, comments, rules, and archives.
pub mod Diff
pub mod Coverage
pub mod Format
pub mod WorkItems
pub mod Batches
pub mod Prompts
pub mod Rules
pub mod Findings
pub mod Http
pub mod Comments
pub mod Tools
pub mod Messages
pub mod Completion
pub mod Single
pub mod BatchReview
pub mod Archive
