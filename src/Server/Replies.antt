-- ===== src/Server/Replies.antt =====
-- How the server answers: the responses to a well-formed request, for every result of the call that
-- it makes, stated without its handlers.
use golang_fin.Prelude.{
  String, ◌≡◌, Bool, false, Option, none, some, List, [], ◌∷◌, ◌=~◌, ◌⧺◌, if◌then◌else◌,
}
use golang_fin.Prelude.Int.{pos}
use golang_fin.Errors.{Result, ok, err, error_text}
use golang_fin.StorageData.{StorageIpData, Context}
use golang_fin.Exec.{Env, Log, LogEntry, info, error}
use golang_fin.Interfaces.{Application}
use golang_fin.Server.{
  HttpMethod, get, post, delete, other, ip_list_result, OutputJson, AuthorizationRequestAnswer,
  Payload, output_json, Writer,
}
use golang_fin.Server.Handlers.{done_message, ip_list_of, yes_or_no}
use golang_fin.Server.Routes.{Handler, login_reset, address_reset, white_list, black_list}

-- The header after a call: the text of its error.
abbrev pub header_of : {A : Type 0} → Result A → List String
header_of (ok a) = []
header_of (err x) = error_text x ∷ []

abbrev pub logged_request : LogEntry
logged_request = record { level = info; msg = "http middle log" }

-- The log after a call: the request, and above it the error, if it has a text.
abbrev pub logged : {A : Type 0} → Result A → Log → Log
logged (ok a) log = logged_request ∷ log
logged (err x) log =
    if error_text x =~ ""
    then logged_request ∷ log
    else record { level = error; msg = "Error at middle logging: " ⧺ error_text x }
      ∷ logged_request
      ∷ log

-- The answer to a check: an error is not told to the client, only that the check has not passed.
abbrev pub verdict : Result (Bool × String) → AuthorizationRequestAnswer
verdict (ok (passed, msg)) = record { message = msg; passed = passed }
verdict (err x) = record { message = ""; passed = false }

-- The message about a call: the good one, or the text of the error behind a prefix.
abbrev pub message_of : {A : Type 0} → String → (A → OutputJson) → Result A → OutputJson
message_of prefix good (ok a) = good a
message_of prefix good (err x) = record { text = prefix ⧺ error_text x; code = pos 1 }

-- The response and the state after a call of the application.
abbrev pub Replies :
    {S A : Type 0} → (Result A → Payload) → Result A × Env S → Writer × Env S → Type 0
Replies payload (result, e) out = out ≡ (
  record { broken = false; error_header = header_of result; written = payload result ∷ [] },
  record { state = e.state; log = logged result e.log },
)

-- The list that a route is about.
abbrev pub list_of : Handler → Option String
list_of white_list = some "whitelist"
list_of black_list = some "blacklist"
list_of _ = none

-- The response to a method that a route has no case for; nothing is called.
abbrev pub Unsupported : {S : Type 0} → Env S → Writer × Env S → Type 0
Unsupported e out = out ≡ (
  record {
    broken = false;
    error_header = [];
    written = output_json (record { text = "method is unsupported"; code = pos 1 }) ∷ [];
  },
  record { state = e.state; log = logged_request ∷ e.log },
)

module _ {S : Type 0} (app : Application S) (ctx : Context) (e : Env S) where
  -- The message and the call that belong to a method on a list.
  abbrev pub ListReplies : HttpMethod → String → StorageIpData → Writer × Env S → Type 0
  ListReplies post listname d =
      Replies (λ res. output_json (message_of "Internal error: " done_message res))
        (app.ip_add_to_list ctx listname d e)
  ListReplies delete listname d =
      Replies (λ res. output_json (message_of "Internal error: " (λ _. done_message (pos 0)) res))
        (app.ip_remove_from_list ctx listname d e)
  ListReplies get listname d =
      if d.ip =~ "ALL"
      then Replies
          (λ res. ip_list_result (record {
            ip_list = ip_list_of res;
            message = message_of "Internal error: " (λ _. done_message (pos 0)) res;
          }))
          (app.ip_get_all_from_list ctx listname e)
      else Replies
          (λ res.
            ip_list_result
              (record { ip_list = some []; message = message_of "Internal error: " yes_or_no res }))
          (app.ip_is_in_list ctx listname d e)
  ListReplies (other name) listname d = Unsupported e

  -- The call that clears a bucket.
  abbrev pub clear_call : Handler → String → Result Unit × Env S
  clear_call login_reset tag = app.clear_bucket_for_login ctx tag e
  clear_call address_reset tag = app.clear_bucket_for_ip ctx tag e
  clear_call _ tag = (ok tt, e)
