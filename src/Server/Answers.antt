-- ===== src/Server/Answers.antt =====
-- What the server answers to a well-formed request, and what it writes to the log, for every result of
-- the call that it makes.
use golang_fin.Prelude.{
  String, ◌≡◌, refl, Bool-cases, Bool, false, some, arith, ◌⊎◌, inl, inr, ◌=~◌,
}
use golang_fin.Prelude.Int.{pos}
use golang_fin.Std.Json.{JsonSyntax}
use golang_fin.Errors.{method_unsupported, Result, ok, err, error_text}
use golang_fin.StorageData.{StorageIpData, RequestAuth}
use golang_fin.Exec.{Exec, ◌>>=◌, Env}
use golang_fin.Interfaces.{Application}
use golang_fin.Server.{
  HttpRequest, HttpMethod, get, post, delete, other, OutputJson, Payload, output_json,
  authorization, answer, api_err_handler,
}
use golang_fin.Server.Decode.{InputTag, unmarshal_request, unmarshal_ip_data, unmarshal_tag}
use golang_fin.Server.Handlers.{
  done_message, with_body, with_decoded, reported, call_and_report, authorization_answer,
  authorization_switch, authorization_request, list_rest, list_switch, clear_bucket, clear_switch,
  clear_bucket_by_tag, clear_login, clear_ip, list_post, list_get, list_delete, rest_white_list,
  rest_black_list,
}
use golang_fin.Server.Routes.{
  Handler, hello, request, login_reset, address_reset, white_list, black_list, routes, handler,
  log_served, open_response, close_response, serve_http,
}
use golang_fin.Server.Replies.{
  verdict, message_of, Replies, list_of, Unsupported, ListReplies, clear_call,
}

module _ {S : Type 0} where
  verdict-Replies :
      (syntax : JsonSyntax) (app : Application S) (result : Result (Bool × String)) (e : Env S)
      → Replies
          (λ res. authorization (verdict res))
          (result, e)
          (close_response
            (log_served (authorization_answer syntax app result (open_response false e)).1).1)
  unfolding log_served authorization_answer answer
  verdict-Replies syntax app (ok (passed, msg)) e = refl
  verdict-Replies syntax app (err x) e = ground arith

  result-Replies :
      {A : Type 0} (prefix : String) (good : A → OutputJson)
      (make : Result A → OutputJson → Payload) (result : Result A) (e : Env S)
      → Replies
          (λ res. make res (message_of prefix good res))
          (result, e)
          (close_response
            (log_served
              ((reported prefix good result >>= λ msg. answer (make result msg))
                (open_response false e)).1).1)
  unfolding log_served reported answer
  result-Replies prefix good make (ok a) e = refl
  result-Replies prefix good make (err x) e = ground arith

  report-Replies :
      {A : Type 0} (m : Exec S A) (prefix : String) (good : A → OutputJson)
      (make : Result A → OutputJson → Payload) (e : Env S)
      → Replies
          (λ res. make res (message_of prefix good res))
          (m e)
          (close_response
            (log_served (call_and_report m prefix good make (open_response false e)).1).1)
  unfolding call_and_report
  report-Replies m prefix good make e = result-Replies prefix good make (m e).0 (m e).1

module _ {S : Type 0} (syntax : JsonSyntax) (app : Application S) (path : String) (r : HttpRequest)
    (e : Env S) (text : String) where
  handler-list_of :
      (h : Handler) (listname : String)
      → list_of h ≡ some listname
      → handler syntax app h r ≡ list_rest syntax app r listname
  unfolding handler rest_white_list rest_black_list
  handler-list_of white_list listname q = cc
  handler-list_of black_list listname q = cc
  handler-list_of hello listname q = cc
  handler-list_of request listname q = cc
  handler-list_of login_reset listname q = cc
  handler-list_of address_reset listname q = cc

  unsupported_lem :
      Unsupported e (
        close_response
          (log_served (api_err_handler method_unsupported (open_response false e)).1).1)
  unfolding log_served api_err_handler error_text
  unsupported_lem = refl

  list_switch-Replies :
      (method : HttpMethod) (listname : String) (d : StorageIpData)
      → r.body ≡ ok text
      → unmarshal_ip_data syntax text ≡ ok d
      → ListReplies app r.ctx e method listname d (
          close_response
            (log_served (list_switch syntax app method r listname (open_response false e)).1).1)
  unfolding list_switch with_body with_decoded list_post list_delete list_get
  list_switch-Replies post listname d is_text is_entry =
      rw (is_text, is_entry) (report-Replies _ _ _ _ e)
  list_switch-Replies delete listname d is_text is_entry =
      rw (is_text, is_entry) (report-Replies _ _ _ _ e)
  list_switch-Replies (other name) listname d is_text is_entry = unsupported_lem
  list_switch-Replies get listname d is_text is_entry = elim (Bool-cases (d.ip =~ "ALL")) [
    | inl all ↦ rw (is_text, is_entry, all) (report-Replies _ _ _ _ e)
    | inr one ↦ rw (is_text, is_entry, one) (report-Replies _ _ _ _ e)
  ]

  pub serve_http-ListReplies :
      (listname : String) (d : StorageIpData)
      → list_of (routes path) ≡ some listname
      → r.body ≡ ok text
      → unmarshal_ip_data syntax text ≡ ok d
      → ListReplies app r.ctx e r.method listname d (serve_http syntax app false path r e)
  unfolding serve_http list_rest
  serve_http-ListReplies listname d to_list is_text is_entry =
      rw (handler-list_of (routes path) listname to_list)
        (list_switch-Replies r.method listname d is_text is_entry)

  clear_switch-Replies :
      (tag_type : String) (t : InputTag) (call : Exec S Unit)
      → clear_bucket syntax app r tag_type t
        ≡ call_and_report call "" (λ _. done_message (pos 0)) (λ _ msg. output_json msg)
      → r.body ≡ ok text
      → unmarshal_tag syntax text ≡ ok t
      → Replies
          (λ res. output_json (message_of "" (λ _. done_message (pos 0)) res))
          (call e)
          (close_response
            (log_served (clear_switch syntax app delete r tag_type (open_response false e)).1).1)
  unfolding clear_switch with_body with_decoded log_served clear_bucket
  clear_switch-Replies tag_type t call is_call is_text is_tag =
      rw (is_text, is_tag, is_call) (report-Replies _ _ _ _ e)

  pub serve_http-clear :
      (t : InputTag)
      → (routes path ≡ login_reset) ⊎ (routes path ≡ address_reset)
      → r.method ≡ delete
      → r.body ≡ ok text
      → unmarshal_tag syntax text ≡ ok t
      → Replies
          (λ res. output_json (message_of "" (λ _. done_message (pos 0)) res))
          (clear_call app r.ctx e (routes path) t.tag)
          (serve_http syntax app false path r e)
  unfolding serve_http clear_login clear_ip clear_bucket_by_tag clear_bucket with_body
  serve_http-clear t (inl to_login) is_delete is_text is_tag =
      rw (to_login, is_delete)
        (clear_switch-Replies "login" t (app.clear_bucket_for_login r.ctx t.tag) refl is_text
          is_tag)
  serve_http-clear t (inr to_address) is_delete is_text is_tag =
      rw (to_address, is_delete)
        (clear_switch-Replies "ip" t (app.clear_bucket_for_ip r.ctx t.tag) refl is_text is_tag)

  -- GET below /request/ with a body that decodes: the response has the verdict and the message of
  -- `CheckRequest`; if that fails, a refusal without a message, the header the text of the error, and
  -- the log an entry for the request, below one for the error.
  pub serve_http-verdict :
      (q : RequestAuth)
      → routes path ≡ request
      → r.method ≡ get
      → r.body ≡ ok text
      → unmarshal_request syntax text ≡ ok q
      → Replies
          (λ res. authorization (verdict res))
          (app.check_request r.ctx q e)
          (serve_http syntax app false path r e)
  unfolding serve_http authorization_request authorization_switch with_body with_decoded
  serve_http-verdict q to_request is_get is_text is_request =
      rw (to_request, is_get, is_text, is_request)
        (verdict-Replies syntax app (app.check_request r.ctx q e).0 (app.check_request r.ctx q e).1)
