-- ===== src/Server/Handlers.antt =====
-- internal/server/http/handlers.go: the handlers, over any application.
use golang_fin.Prelude.{String, Bool, false, Option, none, some, List, [], ◌=~◌, ◌⧺◌, if◌then◌else◌}
use golang_fin.Prelude.Int.{ℤ, pos}
use golang_fin.Std.Json.{JsonSyntax}
use golang_fin.Errors.{Result, ok, err, error_text, method_unsupported, bad_bucket_type_tag}
use golang_fin.StorageData.{StorageIpData}
use golang_fin.Exec.{Exec, pure, ◌>>=◌, ◌>>◌}
use golang_fin.Interfaces.{Application}
use golang_fin.Server.{
  HttpRequest, HttpMethod, get, post, delete, other, OutputJson, Payload, Served, plain,
  output_json, authorization, ip_list_result, call_app, add_error_header, write, api_err_handler,
  answer,
}
use golang_fin.Server.Decode.{InputTag, unmarshal_request, unmarshal_ip_data, unmarshal_tag}

abbrev pub correct_answer_text : String
correct_answer_text = "Everything is OK"

abbrev pub done_message : ℤ → OutputJson
done_message code = record { text = correct_answer_text; code = code }

abbrev pub error_message : String → OutputJson
error_message text = record { text = text; code = pos 1 }

-- The list of the answer to "ALL"; it is nil after an error.
abbrev pub ip_list_of : Result (List StorageIpData) → Option (List StorageIpData)
ip_list_of (ok list) = some list
ip_list_of (err x) = none

abbrev pub yes_or_no : Bool → OutputJson
yes_or_no found = record { text = if found then "Yes" else "No"; code = pos 0 }

module _ {S : Type 0} where
  -- A failure of the application is put into the header and into the message.
  unfoldable pub reported :
      {A : Type 0} → String → (A → OutputJson) → Result A → Exec (Served S) OutputJson
  reported prefix good (ok a) = pure (good a)
  reported prefix good (err x) = do
    add_error_header (error_text x)
    pure (error_message (prefix ⧺ error_text x))

  -- The body is read and decoded; an error of either is the answer.
  unfoldable pub with_decoded :
      {A : Type 0} → Result A → (A → Exec (Served S) Unit) → Exec (Served S) Unit
  with_decoded (err x) next = api_err_handler x
  with_decoded (ok a) next = next a

  unfoldable pub with_body :
      {A : Type 0}
      → HttpRequest
      → (String → Result A)
      → (A → Exec (Served S) Unit)
      → Exec (Served S) Unit
  unfolding with_decoded
  with_body r decode next = with_decoded r.body (λ body. with_decoded (decode body) next)

  -- A call of the application, the report of its error, and the answer.
  unfoldable pub call_and_report :
      {A : Type 0}
      → Exec S A
      → String
      → (A → OutputJson)
      → (Result A → OutputJson → Payload)
      → Exec (Served S) Unit
  unfolding reported answer
  call_and_report m prefix good make = do
    result ← call_app m
    msg ← reported prefix good result
    answer (make result msg)

  -- `helloWorld`
  unfoldable pub hello_world : HttpRequest → Exec (Served S) Unit
  hello_world r e = (ok tt, (write (plain "Hello World") e).1)

module _ {S : Type 0} (syntax : JsonSyntax) (app : Application S) where
  -- What `AuthorizationRequest` answers; with an error the results of `CheckRequest` are zero.
  unfoldable pub authorization_answer : Result (Bool × String) → Exec (Served S) Unit
  unfolding answer
  authorization_answer (ok (passed, msg)) =
      answer (authorization (record { message = msg; passed = passed }))
  authorization_answer (err x) = do
    add_error_header (error_text x)
    answer (authorization (record { message = ""; passed = false }))

  -- The switch of each handler is on the method of the request.
  unfoldable pub authorization_switch : HttpMethod → HttpRequest → Exec (Served S) Unit
  authorization_switch get r =
      with_body r (unmarshal_request syntax)
        λ new_request. call_app (app.check_request r.ctx new_request) >>= authorization_answer
  authorization_switch _ r = api_err_handler method_unsupported

  -- `AuthorizationRequest`
  unfoldable pub authorization_request : HttpRequest → Exec (Served S) Unit
  unfolding authorization_switch
  authorization_request r = authorization_switch r.method r

  -- The inner switch of `clearBucketByTag`, on the kind of bucket.
  unfoldable pub clear_bucket : HttpRequest → String → InputTag → Exec (Served S) Unit
  clear_bucket r tag_type input =
      if tag_type =~ "login"
      then call_and_report (app.clear_bucket_for_login r.ctx input.tag) ""
          (λ _. done_message (pos 0)) (λ _ msg. output_json msg)
      else if tag_type =~ "ip"
      then call_and_report (app.clear_bucket_for_ip r.ctx input.tag) "" (λ _. done_message (pos 0))
          (λ _ msg. output_json msg)
      else api_err_handler bad_bucket_type_tag

  unfoldable pub clear_switch : HttpMethod → HttpRequest → String → Exec (Served S) Unit
  clear_switch delete r tag_type = with_body r (unmarshal_tag syntax) (clear_bucket r tag_type)
  clear_switch _ r tag_type = api_err_handler method_unsupported

  -- `clearBucketByTag`
  unfoldable pub clear_bucket_by_tag : HttpRequest → String → Exec (Served S) Unit
  unfolding clear_switch
  clear_bucket_by_tag r tag_type = clear_switch r.method r tag_type

  -- `ClearBucketForIP` and `ClearBucketForLogin`
  unfoldable pub clear_ip : HttpRequest → Exec (Served S) Unit
  unfolding clear_bucket_by_tag
  clear_ip r = clear_bucket_by_tag r "ip"

  unfoldable pub clear_login : HttpRequest → Exec (Served S) Unit
  unfolding clear_bucket_by_tag
  clear_login r = clear_bucket_by_tag r "login"

  -- `listRest` for GET
  unfoldable pub list_get : HttpRequest → String → StorageIpData → Exec (Served S) Unit
  list_get r listname d =
      if d.ip =~ "ALL"
      then call_and_report (app.ip_get_all_from_list r.ctx listname) "Internal error: "
          (λ _. done_message (pos 0))
          (λ result msg. ip_list_result (record { ip_list = ip_list_of result; message = msg }))
      else call_and_report (app.ip_is_in_list r.ctx listname d) "Internal error: " yes_or_no
          (λ _ msg. ip_list_result (record { ip_list = some []; message = msg }))

  -- `listRest` for POST: the code of the answer is the identifier of the new entry.
  unfoldable pub list_post : HttpRequest → String → StorageIpData → Exec (Served S) Unit
  list_post r listname d =
      call_and_report (app.ip_add_to_list r.ctx listname d) "Internal error: " done_message
        (λ _ msg. output_json msg)

  -- `listRest` for DELETE
  unfoldable pub list_delete : HttpRequest → String → StorageIpData → Exec (Served S) Unit
  list_delete r listname d =
      call_and_report (app.ip_remove_from_list r.ctx listname d) "Internal error: "
        (λ _. done_message (pos 0)) (λ _ msg. output_json msg)

  unfoldable pub list_switch : HttpMethod → HttpRequest → String → Exec (Served S) Unit
  list_switch get r listname = with_body r (unmarshal_ip_data syntax) (list_get r listname)
  list_switch post r listname = with_body r (unmarshal_ip_data syntax) (list_post r listname)
  list_switch delete r listname = with_body r (unmarshal_ip_data syntax) (list_delete r listname)
  list_switch (other name) r listname = api_err_handler method_unsupported

  -- `listRest`
  unfoldable pub list_rest : HttpRequest → String → Exec (Served S) Unit
  unfolding list_switch
  list_rest r listname = list_switch r.method r listname

  -- `RESTWhiteList` and `RESTBlackList`
  unfoldable pub rest_white_list : HttpRequest → Exec (Served S) Unit
  unfolding list_rest
  rest_white_list r = list_rest r "whitelist"

  unfoldable pub rest_black_list : HttpRequest → Exec (Served S) Unit
  unfolding list_rest
  rest_black_list r = list_rest r "blacklist"
