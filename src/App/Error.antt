-- ===== src/App/Error.antt =====
-- The errors of src/app/error.rs.
pub mod Codes
use git_lab_work_runner.Base.{Option, none, some, Str, codes, ◌++◌}

pub data ReviewErrorCode : Type 0 where
  gitlab_api_timeout gitlab_api_failed archive_download_timeout : ReviewErrorCode
  archive_download_failed archive_extract_failed archive_limit_exceeded : ReviewErrorCode
  ai_request_timeout ai_request_failed ai_tool_loop_timeout : ReviewErrorCode
  ai_response_parse_failed review_run_timeout gitlab_comment_failed : ReviewErrorCode
  script_task_busy script_task_failed script_task_timeout : ReviewErrorCode
  script_task_output_limit permission_denied invalid_configuration internal : ReviewErrorCode

-- `ReviewErrorCode::as_str`.
unfoldable pub as_str : ReviewErrorCode → Str
as_str gitlab_api_timeout = codes "gitlab_api_timeout"
as_str gitlab_api_failed = codes "gitlab_api_failed"
as_str archive_download_timeout = codes "archive_download_timeout"
as_str archive_download_failed = codes "archive_download_failed"
as_str archive_extract_failed = codes "archive_extract_failed"
as_str archive_limit_exceeded = codes "archive_limit_exceeded"
as_str ai_request_timeout = codes "ai_request_timeout"
as_str ai_request_failed = codes "ai_request_failed"
as_str ai_tool_loop_timeout = codes "ai_tool_loop_timeout"
as_str ai_response_parse_failed = codes "ai_response_parse_failed"
as_str review_run_timeout = codes "review_run_timeout"
as_str gitlab_comment_failed = codes "gitlab_comment_failed"
as_str script_task_busy = codes "script_task_busy"
as_str script_task_failed = codes "script_task_failed"
as_str script_task_timeout = codes "script_task_timeout"
as_str script_task_output_limit = codes "script_task_output_limit"
as_str permission_denied = codes "permission_denied"
as_str invalid_configuration = codes "invalid_configuration"
as_str internal = codes "internal"

pub record ReviewFailure : Type 0 where
  pub code : ReviewErrorCode
  pub message : Str

-- A foreign error is kept as its text.
pub data AppError : Type 0 where
  config webhook diff rule storage : Str → AppError
  ai_review script_task gitlab archive : ReviewFailure → AppError
  io toml_de json reqwest sqlx : Str → AppError

-- `AppError::ai_review` and the like build the failure from its parts.
abbrev pub ai_review_error : ReviewErrorCode → Str → AppError
ai_review_error code message = ai_review (record { code = code; message = message })

abbrev pub gitlab_error : ReviewErrorCode → Str → AppError
gitlab_error code message = gitlab (record { code = code; message = message })

abbrev pub script_task_error : ReviewErrorCode → Str → AppError
script_task_error code message = script_task (record { code = code; message = message })

abbrev pub archive_error : ReviewErrorCode → Str → AppError
archive_error code message = archive (record { code = code; message = message })

unfoldable pub review_failure : AppError → Option ReviewFailure
review_failure (ai_review failure) = some failure
review_failure (script_task failure) = some failure
review_failure (gitlab failure) = some failure
review_failure (archive failure) = some failure
review_failure _ = none

-- The texts that `thiserror` derives from the `#[error]` attributes.
unfoldable pub display : AppError → Str
display (config text) = codes "configuration error: " ++ text
display (webhook text) = codes "invalid webhook payload: " ++ text
display (diff text) = codes "diff parse error: " ++ text
display (rule text) = codes "rule error: " ++ text
display (ai_review failure) = codes "ai review error: " ++ failure.message
display (script_task failure) = codes "script task error: " ++ failure.message
display (gitlab failure) = codes "gitlab api error: " ++ failure.message
display (archive failure) = codes "archive error: " ++ failure.message
display (storage text) = codes "storage error: " ++ text
display (io text) = text
display (toml_de text) = text
display (json text) = text
display (reqwest text) = text
display (sqlx text) = text
