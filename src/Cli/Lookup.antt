-- ===== src/Cli/Lookup.antt =====
-- The commands `isInList` and `allInList` of cmd/cli, carried out by internal/server/http.
use golang_fin.Prelude.{
  String, ◌≡◌, refl, ◌∙◌, ap, [], ◌∷◌, ◌⧺◌, some, List, Bool, true, false, ◌=~◌, if◌then◌else◌,
  arith,
}
use text.Mathlib.TextLemmas.{append-nil, nil-append, append_assoc}
use golang_fin.Prelude.Int.{IsInt64, pos}
use golang_fin.Std.Strconv.{atoi, itoa}
use golang_fin.Std.Json.Scan.{next_number}
use golang_fin.Std.Json.Step.{
  scan, step, step_value, step_string, step_end, step_number, run as run_scanner,
}
use golang_fin.Std.Json.Syntax.{json_syntax}
use golang_fin.Errors.{Result, ok, err, error_text}
use golang_fin.StorageData.{Context, StorageIpData, string_build}
use golang_fin.Exec.{Env, Exec, lift}
use golang_fin.Interfaces.{Application}
use golang_fin.Server.{get, OutputJson, IpListResult, ip_list_result}
use golang_fin.Server.Routes.{serve_http, routes}
use golang_fin.Server.Decode.{unmarshal_ip_data}
use golang_fin.Server.Handlers.{done_message, ip_list_of, yes_or_no}
use golang_fin.Server.Replies.{Replies, list_of, message_of, logged}
use golang_fin.Server.Answers.{serve_http-ListReplies}
use golang_fin.Cli.{HttpClient, CommandController, exchange, reported, refuse}
use golang_fin.Cli.Decode.{unmarshal_ip_list}
use golang_fin.Cli.RoundTrip.{ip_list_read, AllFit}
use golang_fin.Cli.Commands.{
  root_url, subnet_arg, subnet_body, found_in_list, print_list, list_lines, is_in_list, all_in_list,
}
use golang_fin.Cli.Steps.{reported-goes_on}
use golang_fin.Cli.Connected.{IsConnected, list_url-root, exchange-carried}
use golang_fin.Cli.Replies.{arrived, after_call, served-Replies}

-- One line for each network of a list
unfoldable pub network_lines : List StorageIpData → String
network_lines [] = ""
network_lines (d ∷ list) = d.ip ⧺ "/" ⧺ itoa d.mask ⧺ "\n" ⧺ network_lines list

list_lines-network_lines :
    (before : String) (list : List StorageIpData)
    → list_lines before list ≡ before ⧺ network_lines list
unfolding list_lines network_lines string_build
list_lines-network_lines before [] = rw (append-nil before) refl
list_lines-network_lines before (d ∷ list) =
    list_lines-network_lines (string_build (before ∷ d.ip ∷ "/" ∷ itoa d.mask ∷ "\n" ∷ [])) list
    ∙ rw (nil-append before) (simp (append_assoc))

-- What a look-up prints for the result of the call that it led to
abbrev pub found_text : String → Result Bool → String
found_text listname (ok found) =
    "Subnet found in " ⧺ listname ⧺ ":" ⧺ (if found then "Yes" else "No") ⧺ "."
found_text listname (err x) = "Error: " ⧺ "Internal error: " ⧺ error_text x

abbrev pub list_text : String → Result (List StorageIpData) → String
list_text listname (ok list) = listname ⧺ ":/n" ⧺ network_lines list
list_text listname (err x) = "Error: " ⧺ "Internal error: " ⧺ error_text x

abbrev looked_up : Result Bool → IpListResult
looked_up r = record { ip_list = some []; message = message_of "Internal error: " yes_or_no r }

abbrev listed : Result (List StorageIpData) → IpListResult
listed r = record {
  ip_list = ip_list_of r;
  message = message_of "Internal error: " (λ _. done_message (pos 0)) r;
}

found_in_list-text :
    {N : Type 0} (listname : String) (r : Result Bool) (e : Env N)
    → ((found_in_list listname (looked_up r) e).0 ≡ ok (found_text listname r))
      × ((found_in_list listname (looked_up r) e).1.state ≡ e.state)
unfolding found_in_list refuse
found_in_list-text listname (ok found) e = (refl, refl)
found_in_list-text listname (err x) e = (refl, refl)

print_list-text :
    {N : Type 0} (listname : String) (r : Result (List StorageIpData)) (e : Env N)
    → ((print_list listname (listed r) e).0 ≡ ok (list_text listname r))
      × ((print_list listname (listed r) e).1.state ≡ e.state)
unfolding print_list refuse
print_list-text listname (ok list) e =
    rw (list_lines-network_lines "" list, nil-append (network_lines list)) (refl, refl)
print_list-text listname (err x) e = (refl, refl)

-- The replies to a look-up that is not for all of a list
otherwise :
    {W : Type 0} (P Q : W → Type 0) (w : W) (b : Bool) → b ≡ false → (if b then P else Q) w → Q w
otherwise P Q w false h q = q
otherwise P Q w true h p = ground (arith, h)

code_fits :
    {A : Type 0} (good : A → OutputJson) (r : Result A)
    → ((a : A) → (good a).code ≡ pos 0)
    → IsInt64 (message_of "Internal error: " good r).code
code_fits good (ok a) h = rw (h a) (ground arith)
code_fits good (err x) h = ground arith

module _ {S : Type 0} (error_of : String → String → String) (app : Application S) (ctx : Context)
    (client : HttpClient (Env S)) (comcont : CommandController)
    (connected : IsConnected error_of app ctx client comcont) where
  -- A command that reads a list, from the request to what is printed
  read_served :
      {A : Type 0} (path body : String) (answer : Result A → IpListResult)
      (next : IpListResult → Exec (Env S) String) (text : String) (call : Result A × Env S)
      (e : Env (Env S))
      → Replies
          (λ res. ip_list_result (answer res))
          call
          (serve_http (json_syntax error_of) app false path (arrived ctx get body) e.state)
      → AllFit (answer call.0).ip_list
      → IsInt64 (answer call.0).message.code
      → ((next (answer call.0) (after_call call e.log)).0 ≡ ok text)
        × ((next (answer call.0) (after_call call e.log)).1.state ≡ (after_call call e.log).state)
      → ((reported
            (exchange client get
              (root_url comcont path)
              body
              (unmarshal_ip_list (json_syntax error_of)))
            next
            e).0
          ≡ ok text)
        × ((reported
              (exchange client get
                (root_url comcont path)
                body
                (unmarshal_ip_list (json_syntax error_of)))
              next
              e).1.state
            ≡ record { state = call.1.state; log = logged call.0 call.1.log })
  read_served path body answer next text call e replies entries code said =
      rw
        (reported-goes_on _ next e (answer call.0) (after_call call e.log) (
          exchange-carried error_of app ctx client comcont connected get path body _
            (unmarshal_ip_list (json_syntax error_of)) e _
            (served-Replies error_of app ctx (λ res. ip_list_result (answer res)) call get path body
              e.state replies)
          ∙ ap (λ r. (r, after_call call e.log)) (ip_list_read error_of _ entries code)))
        said

  all_decodes :
      unmarshal_ip_data (json_syntax error_of) "{\"IP\":\"ALL\", \"Mask\":0}"
      ≡ ok (record { ip = "ALL"; mask = pos 0; id = pos 0 })
  unfolding unmarshal_ip_data scan run_scanner step step_value step_string step_end step_number
      next_number atoi
  all_decodes = refl

  -- A look-up of one entry and of a whole list, from the command to the printed text: if the argument
  -- splits in two, the body of the request decodes to an entry whose address is not "ALL", the path is
  -- that of the list, and the numbers of its entries are of 64 bits, the text has the answer "Yes" or
  -- "No", or one line for each network of the list in its order, or the error; the stores are as one
  -- call of the application leaves them.
  pub look_up-served :
      (listname command subnet ip mask : String) (d : StorageIpData) (e : Env (Env S))
      → subnet_arg (command ∷ subnet ∷ []) ≡ ok (ip, mask)
      → list_of (routes ("/" ⧺ listname ⧺ "/")) ≡ some listname
      → unmarshal_ip_data (json_syntax error_of) (subnet_body ip mask) ≡ ok d
      → (d.ip =~ "ALL") ≡ false
      → AllFit (ip_list_of (app.ip_get_all_from_list ctx listname e.state).0)
      → ((is_in_list (json_syntax error_of) client comcont (command ∷ subnet ∷ []) listname e).0
          ≡ ok (found_text listname (app.ip_is_in_list ctx listname d e.state).0))
        × ((is_in_list
              (json_syntax error_of)
              client
              comcont
              (command ∷ subnet ∷ [])
              listname
              e).1.state.state
            ≡ (app.ip_is_in_list ctx listname d e.state).1.state)
        × ((all_in_list (json_syntax error_of) client comcont listname e).0
            ≡ ok (list_text listname (app.ip_get_all_from_list ctx listname e.state).0))
        × ((all_in_list (json_syntax error_of) client comcont listname e).1.state.state
            ≡ (app.ip_get_all_from_list ctx listname e.state).1.state)
  unfolding is_in_list all_in_list
  look_up-served listname command subnet ip mask d e parts to_list decodes one entries =
      rw
        (
          reported-goes_on (lift (subnet_arg (command ∷ subnet ∷ []))) _ e (ip, mask) e
              (ap (λ r. (r, e)) parts),
          list_url-root comcont listname,
        )
        (let (found, found_state) =
            read_served ("/" ⧺ listname ⧺ "/") (subnet_body ip mask) looked_up
              (found_in_list listname) _ (app.ip_is_in_list ctx listname d e.state) e
              (otherwise _ _ _ (d.ip =~ "ALL") one (
                serve_http-ListReplies (json_syntax error_of) app ("/" ⧺ listname ⧺ "/")
                  (arrived ctx get (subnet_body ip mask)) e.state (subnet_body ip mask) listname d
                  to_list refl decodes))
              tt (code_fits yes_or_no (app.ip_is_in_list ctx listname d e.state).0 (λ _. refl))
              (found_in_list-text listname (app.ip_is_in_list ctx listname d e.state).0 _) in
          let (all, all_state) =
            read_served ("/" ⧺ listname ⧺ "/") "{\"IP\":\"ALL\", \"Mask\":0}" listed
              (print_list listname) _ (app.ip_get_all_from_list ctx listname e.state) e
              (serve_http-ListReplies (json_syntax error_of) app ("/" ⧺ listname ⧺ "/")
                (arrived ctx get "{\"IP\":\"ALL\", \"Mask\":0}") e.state _ listname _ to_list refl
                all_decodes)
              entries
              (code_fits (λ _. done_message (pos 0))
                (app.ip_get_all_from_list ctx listname e.state).0 (λ _. refl))
              (print_list-text listname (app.ip_get_all_from_list ctx listname e.state).0 _) in
          (found, ap (λ n. n.state) found_state, all, ap (λ n. n.state) all_state))
