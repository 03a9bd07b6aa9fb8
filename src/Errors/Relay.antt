-- ===== src/Errors/Relay.antt =====
-- What one relay says of another's error body (src/error.rs).
use codex_api.Common.{◌≡◌}
use codex_api.Json.{Json}
use codex_api.Json.Access.{index, json_object}
use codex_api.Json.Objects.{index-insert, as_str-json_string, as_str-json_option}
use codex_api.Errors.Api.{ApiError, upstream, body}

module _ ⦃J : Json⦄ where
  open J use {Value}

  -- Read as the error of an upstream, the body of an error gives that error back, with its type,
  -- code, parameter and message, and the status of a bad gateway in place of its own.
  pub upstream-body : (e : ApiError) → upstream (index (body e) "error") ≡ record e { status = 502 }
  unfolding upstream body json_object
  upstream-body e = simp (index-insert, as_str-json_string, as_str-json_option)
