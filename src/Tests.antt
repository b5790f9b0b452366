-- ===== src/Tests.antt =====
-- The development on concrete inputs: runs of the definitions, and uses of the theorems.
mod Diffs
mod Registries
mod Reviews
mod Answers
mod Tools
mod Conversations
mod Webhooks
mod Prompts
mod Runs
mod Archives
