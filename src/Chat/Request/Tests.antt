-- ===== src/Chat/Request/Tests.antt =====
-- Runs of the conversion of Chat requests (src/chat.rs).
use codex_api.Common.{◌≡◌, refl, not, ◌||◌, true, false, none, some, [], ◌∷◌, ok}
use codex_api.Json.Plain.{plain_json}
use codex_api.Json.Trees.{Plain, p_bool, p_string, p_array, p_object, nil, cons, end, member}
use codex_api.Json.Access.{
  as_object, as_array, as_str, as_bool, is_null, get_field, index, json_object, json_string,
}
use codex_api.Chat.Request.Fields.{
  into_request_object, take_request_string, take_required, request_bool, convert_stream,
  convert_stream_options, validate_n, validate_ignored_completion_limit, convert_reasoning_effort,
  is_effort, convert_response_format, reject_unknown_request_fields,
}
use codex_api.Chat.Request.Text.{parse_text_parts, convert_text_content}
use codex_api.Chat.Request.Messages.{
  text_message, convert_user_message, convert_role, convert_message, convert_each, convert_messages,
}
use codex_api.Chat.Request.Convert.{
  ConvertedRequest, upstream_fields, required_upstream, convert_tool_fields, convert_stream_fields,
  optional_parts, request_fields, convert_request,
}
use codex_api.Chat.Request.Sent.{convert_request_sends, streams_without_tools}
use codex_api.Chat.Request.Supported.{one_of, supported_fields, accepts_only_supported}

abbrev greeting : Plain
greeting = p_object (member "role" (p_string "user") (member "content" (p_string "hi") end))

abbrev request : Plain
request = p_object (
    member "model" (p_string "gpt-5") (
      member "messages" (p_array (cons greeting nil)) (
        member "stream" (p_bool true) (
          member "stream_options" (p_object (member "include_usage" (p_bool true) end))
            (member "reasoning_effort" (p_string "high") end)))))

abbrev sent : ConvertedRequest
sent = record {
  upstream_request = p_object (
      member "model" (p_string "gpt-5") (
        member "input"
          (p_array (
            cons
              (p_object (
                member "type" (p_string "message") (
                  member "role" (p_string "user") (
                    member "content"
                      (p_array (
                        cons
                          (p_object (
                            member "type" (p_string "input_text")
                              (member "text" (p_string "hi") end)))
                          nil))
                      end))))
              nil))
          (member "stream" (p_bool true) (
            member "store" (p_bool false)
              (member "reasoning" (p_object (member "effort" (p_string "high") end)) end)))));
  model = "gpt-5";
  reasoning_effort = some "high";
  stream = true;
  include_usage = true;
}

converts_request : convert_request request ≡ ok sent
unfolding convert_request request_fields optional_parts convert_tool_fields convert_stream_fields
    upstream_fields required_upstream convert_messages convert_each convert_message convert_role
    convert_user_message text_message convert_text_content parse_text_parts into_request_object
    take_request_string take_required request_bool convert_stream convert_stream_options validate_n
    validate_ignored_completion_limit convert_reasoning_effort is_effort convert_response_format
    reject_unknown_request_fields as_object as_array as_str as_bool is_null get_field json_object
    json_string
converts_request = refl

convert_request_sends_example :
    (as_bool (index sent.upstream_request "stream") ≡ some true)
    × (as_bool (index sent.upstream_request "store") ≡ some false)
    × (as_str (index sent.upstream_request "model") ≡ some "gpt-5")
    × ((not true || true) ≡ true)
convert_request_sends_example = convert_request_sends request sent converts_request

streams_without_tools_example : get_field sent.upstream_request "tools" ≡ none
streams_without_tools_example = streams_without_tools request sent converts_request refl

reads_request :
    as_object request
    ≡ some (
        ("model", p_string "gpt-5")
        ∷ ("messages", p_array (cons greeting nil))
        ∷ ("stream", p_bool true)
        ∷ ("stream_options", p_object (member "include_usage" (p_bool true) end))
        ∷ ("reasoning_effort", p_string "high")
        ∷ [])
unfolding as_object
reads_request = refl

accepts_only_supported_example : one_of supported_fields "stream_options" ≡ true
accepts_only_supported_example =
    accepts_only_supported request sent
      (("model", p_string "gpt-5")
        ∷ ("messages", p_array (cons greeting nil))
        ∷ ("stream", p_bool true)
        ∷ ("stream_options", p_object (member "include_usage" (p_bool true) end))
        ∷ ("reasoning_effort", p_string "high")
        ∷ [])
      "stream_options" (p_object (member "include_usage" (p_bool true) end)) converts_request
      reads_request refl
