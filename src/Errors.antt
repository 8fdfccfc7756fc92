-- ===== src/Errors.antt =====
-- src/lib/errors.ts: the classes of `AppError` and their constants. A JSON-RPC code is negative; its
-- magnitude stands here.
use emcp.Prelude.{ℕ}

pub data AppError : Type 0 where
  validation_error auth_required_error auth_malformed_token_error : AppError
  auth_invalid_credentials_error key_blacklisted_error key_deleted_error : AppError
  rate_limit_error not_found_error conflict_error session_not_found_error : AppError
  origin_or_host_rejected_error transient_error config_error : AppError

unfoldable pub http_status : AppError → ℕ
http_status validation_error = 400
http_status auth_required_error = 401
http_status auth_malformed_token_error = 401
http_status auth_invalid_credentials_error = 401
http_status key_blacklisted_error = 403
http_status key_deleted_error = 403
http_status rate_limit_error = 429
http_status not_found_error = 404
http_status conflict_error = 409
http_status session_not_found_error = 404
http_status origin_or_host_rejected_error = 403
http_status transient_error = 503
http_status config_error = 500

unfoldable pub json_rpc_code : AppError → ℕ
json_rpc_code validation_error = 32602
json_rpc_code auth_required_error = 32001
json_rpc_code auth_malformed_token_error = 32002
json_rpc_code auth_invalid_credentials_error = 32003
json_rpc_code key_blacklisted_error = 32004
json_rpc_code key_deleted_error = 32005
json_rpc_code rate_limit_error = 32029
json_rpc_code not_found_error = 32011
json_rpc_code conflict_error = 32012
json_rpc_code session_not_found_error = 32006
json_rpc_code origin_or_host_rejected_error = 32007
json_rpc_code transient_error = 32013
json_rpc_code config_error = 32603
