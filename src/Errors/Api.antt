-- ===== src/Errors/Api.antt =====
-- src/error.rs: `ApiError`, its constructors and its JSON body. A status is its number.
use codex_api.Common.{ℕ, Option, none, some, [], ◌∷◌, String, ◌⧺◌, unwrap_or}
use codex_api.Json.{Json}
use codex_api.Json.Access.{index, as_str, json_object, json_string, json_option}

pub record ApiError : Type 0 where
  pub status : ℕ
  pub error_type : String
  pub code : String
  pub param : Option String
  pub message : String

unfoldable pub session_busy : ApiError
session_busy = record {
  status = 409;
  error_type = "invalid_request_error";
  code = "session_busy";
  param = none;
  message = "This session already has a request in progress";
}

unfoldable pub invalid : String → String → ApiError
invalid param message = record {
  status = 400;
  error_type = "invalid_request_error";
  code = "invalid_request_error";
  param = some param;
  message = message;
}

unfoldable pub invalid_api_key : ApiError
invalid_api_key = record {
  status = 401;
  error_type = "invalid_request_error";
  code = "invalid_api_key";
  param = none;
  message = "Invalid API key";
}

unfoldable pub quota_exceeded : ApiError
quota_exceeded = record {
  status = 429;
  error_type = "invalid_request_error";
  code = "weekly_quota_exceeded";
  param = none;
  message = "The configured weekly quota has been exceeded";
}

-- `quoted` is the `Debug` form of the model, which the standard library escapes.
unfoldable pub model_not_found : String → ApiError
model_not_found quoted = record {
  status = 404;
  error_type = "invalid_request_error";
  code = "model_not_found";
  param = some "model";
  message = "The model " ⧺ quoted ⧺ " does not exist or is not available";
}

unfoldable pub gateway : String → ApiError
gateway message = record {
  status = 502;
  error_type = "upstream_error";
  code = "upstream_error";
  param = none;
  message = message;
}

unfoldable pub internal : ApiError
internal = record {
  status = 500;
  error_type = "server_error";
  code = "internal_error";
  param = none;
  message = "Internal server error";
}

unfoldable pub shutdown : ApiError
shutdown = record {
  status = 503;
  error_type = "server_error";
  code = "server_shutting_down";
  param = none;
  message = "Server is shutting down";
}

module _ ⦃J : Json⦄ where
  open J use {Value}

  unfoldable pub upstream : Value → ApiError
  upstream error = record {
    status = 502;
    error_type = unwrap_or (as_str (index error "type")) "upstream_error";
    code = unwrap_or (as_str (index error "code")) "upstream_error";
    param = as_str (index error "param");
    message = unwrap_or (as_str (index error "message")) "Upstream request failed";
  }

  unfoldable pub body : ApiError → Value
  body e = json_object (
      (
        "error",
        json_object (
            ("message", json_string e.message)
            ∷ ("type", json_string e.error_type)
            ∷ ("param", json_option e.param)
            ∷ ("code", json_string e.code)
            ∷ []),
      )
      ∷ [])

  unfoldable pub websocket_error : String → Option String → String → Value
  websocket_error code param message = json_object (
      ("type", json_string "error")
      ∷ ("code", json_string code)
      ∷ ("param", json_option param)
      ∷ ("message", json_string message)
      ∷ [])
