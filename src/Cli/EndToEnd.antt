-- ===== src/Cli/EndToEnd.antt =====
-- A command of cmd/cli carried out by internal/server/http: what it does to the server and what it
-- prints.
use golang_fin.Prelude.{String, ◌≡◌, refl, ◌∙◌, ap, [], ◌∷◌, ◌⧺◌, some, arith, false}
use golang_fin.Prelude.Int.{IsInt64, pos}
use golang_fin.Std.Json.Syntax.{json_syntax}
use golang_fin.Errors.{Result, ok, err}
use golang_fin.StorageData.{Context, StorageIpData}
use golang_fin.Exec.{Env, lift}
use golang_fin.Interfaces.{Application}
use golang_fin.Server.{HttpMethod, post, delete, OutputJson, output_json}
use golang_fin.Server.Routes.{serve_http, routes}
use golang_fin.Server.Decode.{unmarshal_ip_data}
use golang_fin.Server.Handlers.{done_message}
use golang_fin.Server.Replies.{Replies, list_of, message_of, logged}
use golang_fin.Server.Answers.{serve_http-ListReplies}
use golang_fin.Cli.{HttpClient, CommandController, exchange, reported}
use golang_fin.Cli.Decode.{unmarshal_output}
use golang_fin.Cli.RoundTrip.{output_read}
use golang_fin.Cli.Commands.{
  list_url, subnet_arg, subnet_body, confirm, add_to_list, remove_from_list,
}
use golang_fin.Cli.Confirm.{change_text, confirm_change}
use golang_fin.Cli.Steps.{reported-goes_on}
use golang_fin.Cli.Connected.{IsConnected, list_url-root, exchange-carried}
use golang_fin.Cli.Replies.{arrived, after_call, served-Replies}

module _ {S : Type 0} (error_of : String → String → String) (app : Application S) (ctx : Context)
    (client : HttpClient (Env S)) (comcont : CommandController)
    (connected : IsConnected error_of app ctx client comcont) where
  -- A command that sends an entry of a list and waits for the text of success
  change_served :
      {A : Type 0} (method : HttpMethod) (listname ip mask msg : String) (d : StorageIpData)
      (good : A → OutputJson) (call : Result A × Env S) (e : Env (Env S))
      → ((a : A) → (good a).text ≡ "Everything is OK")
      → Replies
          (λ res. output_json (message_of "Internal error: " good res))
          call
          (serve_http
            (json_syntax error_of)
            app
            false
            ("/" ⧺ listname ⧺ "/")
            (arrived ctx method (subnet_body ip mask))
            e.state)
      → IsInt64 (message_of "Internal error: " good call.0).code
      → ((reported
            (exchange client method
              (list_url comcont listname)
              (subnet_body ip mask)
              (unmarshal_output (json_syntax error_of)))
            (λ answer. confirm answer msg)
            e).0
          ≡ ok (change_text msg call.0))
        × ((reported
              (exchange client method
                (list_url comcont listname)
                (subnet_body ip mask)
                (unmarshal_output (json_syntax error_of)))
              (λ answer. confirm answer msg)
              e).1.state
            ≡ record { state = call.1.state; log = logged call.0 call.1.log })
  change_served method listname ip mask msg d good call e good_text replies range =
      rw
        (
          list_url-root comcont listname,
          reported-goes_on _ (λ answer. confirm answer msg) e
              (message_of "Internal error: " good call.0) (after_call call e.log)
              (exchange-carried error_of app ctx client comcont connected method
                  ("/" ⧺ listname ⧺ "/") _ _ (unmarshal_output (json_syntax error_of)) e _
                  (served-Replies error_of app ctx
                    (λ res. output_json (message_of "Internal error: " good res)) call method _ _
                    e.state replies)
                ∙ ap (λ r. (r, after_call call e.log)) (output_read error_of _ range)),
        )
        (confirm_change msg good good_text call.0 _)

  add_to_list-served :
      (listname command subnet ip mask : String) (d : StorageIpData) (e : Env (Env S))
      → subnet_arg (command ∷ subnet ∷ []) ≡ ok (ip, mask)
      → list_of (routes ("/" ⧺ listname ⧺ "/")) ≡ some listname
      → unmarshal_ip_data (json_syntax error_of) (subnet_body ip mask) ≡ ok d
      → IsInt64
          (message_of "Internal error: " done_message
            (app.ip_add_to_list ctx listname d e.state).0).code
      → ((add_to_list (json_syntax error_of) client comcont (command ∷ subnet ∷ []) listname e).0
          ≡ ok (
              change_text
                ("Subnet successfully added to " ⧺ listname ⧺ ".")
                (app.ip_add_to_list ctx listname d e.state).0))
        × ((add_to_list
              (json_syntax error_of)
              client
              comcont
              (command ∷ subnet ∷ [])
              listname
              e).1.state.state
            ≡ (app.ip_add_to_list ctx listname d e.state).1.state)
  unfolding add_to_list
  add_to_list-served listname command subnet ip mask d e parts to_list decodes range =
      rw
        (reported-goes_on (lift (subnet_arg (command ∷ subnet ∷ []))) _ e (ip, mask) e
          (ap (λ r. (r, e)) parts))
        (let (said, after) =
            change_served post listname ip mask _ d done_message
              (app.ip_add_to_list ctx listname d e.state) e (λ id. refl)
              (serve_http-ListReplies (json_syntax error_of) app ("/" ⧺ listname ⧺ "/")
                (arrived ctx post (subnet_body ip mask)) e.state (subnet_body ip mask) listname d
                to_list refl decodes)
              range in
          (said, ap (λ n. n.state) after))

  remove_from_list-served :
      (listname command subnet ip mask : String) (d : StorageIpData) (e : Env (Env S))
      → subnet_arg (command ∷ subnet ∷ []) ≡ ok (ip, mask)
      → list_of (routes ("/" ⧺ listname ⧺ "/")) ≡ some listname
      → unmarshal_ip_data (json_syntax error_of) (subnet_body ip mask) ≡ ok d
      → ((remove_from_list
            (json_syntax error_of)
            client
            comcont
            (command ∷ subnet ∷ [])
            listname
            e).0
          ≡ ok (
              change_text
                ("Subnet successfully removed from " ⧺ listname ⧺ ".")
                (app.ip_remove_from_list ctx listname d e.state).0))
        × ((remove_from_list
              (json_syntax error_of)
              client
              comcont
              (command ∷ subnet ∷ [])
              listname
              e).1.state.state
            ≡ (app.ip_remove_from_list ctx listname d e.state).1.state)
  unfolding remove_from_list
  remove_from_list-served listname command subnet ip mask d e parts to_list decodes =
      rw
        (reported-goes_on (lift (subnet_arg (command ∷ subnet ∷ []))) _ e (ip, mask) e
          (ap (λ r. (r, e)) parts))
        (let (said, after) =
            change_served delete listname ip mask _ d (λ _. done_message (pos 0))
              (app.ip_remove_from_list ctx listname d e.state) e (λ _. refl)
              (serve_http-ListReplies (json_syntax error_of) app ("/" ⧺ listname ⧺ "/")
                (arrived ctx delete (subnet_body ip mask)) e.state (subnet_body ip mask) listname d
                to_list refl decodes)
              (range_of (app.ip_remove_from_list ctx listname d e.state).0) in
          (said, ap (λ n. n.state) after))
    where
      range_of :
          (r : Result Unit)
          → IsInt64 (message_of "Internal error: " (λ _. done_message (pos 0)) r).code
      range_of (ok a) = ground arith
      range_of (err x) = ground arith

  -- An addition or a removal of an entry, from the command to the printed text: if the argument splits
  -- in two, the body of the request decodes to the entry and the path is that of the list, the stores
  -- are as one call of the application leaves them, and the text tells success exactly for its
  -- success and else its error. For the addition the number of the answer is taken to be of 64 bits.
  pub change-served :
      (listname command subnet ip mask : String) (d : StorageIpData) (e : Env (Env S))
      → subnet_arg (command ∷ subnet ∷ []) ≡ ok (ip, mask)
      → list_of (routes ("/" ⧺ listname ⧺ "/")) ≡ some listname
      → unmarshal_ip_data (json_syntax error_of) (subnet_body ip mask) ≡ ok d
      → IsInt64
          (message_of "Internal error: " done_message
            (app.ip_add_to_list ctx listname d e.state).0).code
      → ((add_to_list (json_syntax error_of) client comcont (command ∷ subnet ∷ []) listname e).0
          ≡ ok (
              change_text
                ("Subnet successfully added to " ⧺ listname ⧺ ".")
                (app.ip_add_to_list ctx listname d e.state).0))
        × ((add_to_list
              (json_syntax error_of)
              client
              comcont
              (command ∷ subnet ∷ [])
              listname
              e).1.state.state
            ≡ (app.ip_add_to_list ctx listname d e.state).1.state)
        × ((remove_from_list
              (json_syntax error_of)
              client
              comcont
              (command ∷ subnet ∷ [])
              listname
              e).0
            ≡ ok (
                change_text
                  ("Subnet successfully removed from " ⧺ listname ⧺ ".")
                  (app.ip_remove_from_list ctx listname d e.state).0))
        × ((remove_from_list
              (json_syntax error_of)
              client
              comcont
              (command ∷ subnet ∷ [])
              listname
              e).1.state.state
            ≡ (app.ip_remove_from_list ctx listname d e.state).1.state)
  change-served listname command subnet ip mask d e parts to_list decodes range =
      let (said, after) =
        add_to_list-served listname command subnet ip mask d e parts to_list decodes range in
      let (said', after') =
        remove_from_list-served listname command subnet ip mask d e parts to_list decodes in
      (said, after, said', after')
