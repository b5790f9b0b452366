-- ===== src/App/Error/Codes.antt =====
-- The texts of the error codes of src/app/error.rs.
use git_lab_work_runner.Base.{◌≡◌, refl, ap, Option, none, some, Str, codes, str_eq, if◌then◌else◌}
use git_lab_work_runner.App.Error.{
  ReviewErrorCode, as_str, gitlab_api_timeout, gitlab_api_failed, archive_download_timeout,
  archive_download_failed, archive_extract_failed, archive_limit_exceeded, ai_request_timeout,
  ai_request_failed, ai_tool_loop_timeout, ai_response_parse_failed, review_run_timeout,
  gitlab_comment_failed, script_task_busy, script_task_failed, script_task_timeout,
  script_task_output_limit, permission_denied, invalid_configuration, internal,
}

code_of : Str → Option ReviewErrorCode
code_of s =
    if str_eq s (codes "gitlab_api_timeout")
    then some gitlab_api_timeout
    else if str_eq s (codes "gitlab_api_failed")
    then some gitlab_api_failed
    else if str_eq s (codes "archive_download_timeout")
    then some archive_download_timeout
    else if str_eq s (codes "archive_download_failed")
    then some archive_download_failed
    else if str_eq s (codes "archive_extract_failed")
    then some archive_extract_failed
    else if str_eq s (codes "archive_limit_exceeded")
    then some archive_limit_exceeded
    else if str_eq s (codes "ai_request_timeout")
    then some ai_request_timeout
    else if str_eq s (codes "ai_request_failed")
    then some ai_request_failed
    else if str_eq s (codes "ai_tool_loop_timeout")
    then some ai_tool_loop_timeout
    else if str_eq s (codes "ai_response_parse_failed")
    then some ai_response_parse_failed
    else if str_eq s (codes "review_run_timeout")
    then some review_run_timeout
    else if str_eq s (codes "gitlab_comment_failed")
    then some gitlab_comment_failed
    else if str_eq s (codes "script_task_busy")
    then some script_task_busy
    else if str_eq s (codes "script_task_failed")
    then some script_task_failed
    else if str_eq s (codes "script_task_timeout")
    then some script_task_timeout
    else if str_eq s (codes "script_task_output_limit")
    then some script_task_output_limit
    else if str_eq s (codes "permission_denied")
    then some permission_denied
    else if str_eq s (codes "invalid_configuration")
    then some invalid_configuration
    else if str_eq s (codes "internal")
    then some internal
    else none

code_of-as_str : (c : ReviewErrorCode) → code_of (as_str c) ≡ some c
unfolding code_of as_str
code_of-as_str gitlab_api_timeout = refl
code_of-as_str gitlab_api_failed = refl
code_of-as_str archive_download_timeout = refl
code_of-as_str archive_download_failed = refl
code_of-as_str archive_extract_failed = refl
code_of-as_str archive_limit_exceeded = refl
code_of-as_str ai_request_timeout = refl
code_of-as_str ai_request_failed = refl
code_of-as_str ai_tool_loop_timeout = refl
code_of-as_str ai_response_parse_failed = refl
code_of-as_str review_run_timeout = refl
code_of-as_str gitlab_comment_failed = refl
code_of-as_str script_task_busy = refl
code_of-as_str script_task_failed = refl
code_of-as_str script_task_timeout = refl
code_of-as_str script_task_output_limit = refl
code_of-as_str permission_denied = refl
code_of-as_str invalid_configuration = refl
code_of-as_str internal = refl

-- Two different error codes never have the same text, so a stored code determines its error.
pub as_str-injective : (c d : ReviewErrorCode) → as_str c ≡ as_str d → c ≡ d
as_str-injective c d e = cc (code_of-as_str c, code_of-as_str d, ap code_of e)
