-- ===== src/Cli/Answers.antt =====
-- cmd/cli/cli.go: what the commands that change something print for the answer of the server.
use golang_fin.Prelude.{
  String, List, [], ◌∷◌, Option, none, some, ◌⧺◌, ◌≡◌, refl, arith, ◌↔◌, ◌≢◌, ◌=~◌, cons-append-ne,
  inl, inr, Bool, true, false,
}
use golang_fin.Std.Json.{JsonSyntax}
use golang_fin.Errors.{Result, ok, err, error_text}
use golang_fin.Exec.{Exec, Env, Result-cases, lift}
use golang_fin.Server.{HttpMethod, post, delete, OutputJson}
use golang_fin.Cli.{
  HttpClient, ClientRequest, Response, CommandController, exchange, refuse, reported,
}
use golang_fin.Cli.Steps.{reported-ok, reported-err}
use golang_fin.Cli.Decode.{unmarshal_output}
use golang_fin.Cli.Commands.{
  subnet_arg, confirm, add_to_list, remove_from_list, clear_bucket_by_tag, url_by_type, subnet_body,
}
use golang_fin.Cli.Requests.{json_request, wanted, subnet_request}
use golang_fin.Cli.Main.{Command, list_add, list_remove, clear, run_command}

module _ {N : Type 0} (client : HttpClient N) where
  abbrev body_of : Result Response → Result String
  body_of (ok resp) = resp.body
  body_of (err x) = err x

  abbrev answered_if : Result Unit → ClientRequest → N → Result String
  answered_if (ok u) r n = body_of (client.do_request r n).0
  answered_if (err x) r n = err x

  -- The body that a request is answered with.
  unfoldable pub answered : ClientRequest → N → Result String
  answered r n = answered_if (client.parse_url r.url) r n

  abbrev decoded_by : {A : Type 0} → (String → Result A) → Result String → Result A
  decoded_by decode (ok body) = decode body
  decoded_by decode (err x) = err x

  pub exchange_result :
      {A : Type 0} (method : HttpMethod) (url body : String) (decode : String → Result A)
      (e : Env N)
      → (exchange client method url body decode e).0
        ≡ decoded_by decode (answered (json_request method url body) e.state)
  unfolding exchange answered
  exchange_result method url body decode e = elim (Result-cases (client.parse_url url)) [
    | inr (x, q) ↦ ground (arith, q)
    | inl (u, q) ↦
        elim (Result-cases (client.do_request (json_request method url body) e.state).0) [
          | inr (x, q1) ↦ ground (arith, q, q1)
          | inl (resp, q1) ↦ elim (Result-cases resp.body) [
            | inr (x, q2) ↦ ground (arith, q, q1, q2)
            | inl (text, q2) ↦ ground (arith, q, q1, q2)
          ]
        ]
  ]

  abbrev says_done : Result OutputJson → Bool
  says_done (ok answer) = answer.text =~ "Everything is OK"
  says_done (err x) = false

  -- Whether there is a request, and it is answered with the text of success.
  unfoldable pub accepted : JsonSyntax → Option ClientRequest → N → Bool
  accepted syntax none n = false
  accepted syntax (some r) n = says_done (decoded_by (unmarshal_output syntax) (answered r n))

  -- The texts of failure are none of the messages.
  confirm_iff :
      (r : Result OutputJson) (msg : String)
      → ((text : String) → "Error: " ⧺ text ≢ msg)
      → (m : Exec N OutputJson) (e : Env N) → ((m e).0 ≡ r)
      → ((reported m (λ answer. confirm answer msg) e).0 ≡ ok msg) ↔ (says_done r ≡ true)
  unfolding confirm refuse
  confirm_iff (err x) msg h m e q =
      rw (reported-err m (λ answer. confirm answer msg) e x q) (ground (arith, h (error_text x)))
  confirm_iff (ok answer) msg h m e q =
      rw (reported-ok m (λ answer. confirm answer msg) e answer q) (ground (arith, h answer.text))

  -- A command about one network
  subnet_iff :
      (syntax : JsonSyntax) (method : HttpMethod) (url msg : String)
      → ((text : String) → "Error: " ⧺ text ≢ msg)
      → (arg : List String) (e : Env N)
      → ((reported
            (lift (subnet_arg arg))
            (λ (ip, mask).
              reported
                (exchange client method url (subnet_body ip mask) (unmarshal_output syntax))
                λ answer. confirm answer msg)
            e).0
          ≡ ok msg)
        ↔ (accepted syntax (subnet_request method url (subnet_arg arg)) e.state ≡ true)
  unfolding accepted refuse
  subnet_iff syntax method url msg h arg e = elim (Result-cases (subnet_arg arg)) [
    | inr (x, q) ↦
        rw (reported-err (lift (subnet_arg arg)) _ e x q, q) (ground (arith, h (error_text x)))
    | inl ((ip, mask), q) ↦
        rw (reported-ok (lift (subnet_arg arg)) _ e (ip, mask) q, q)
          (confirm_iff _ msg h _ e (exchange_result method url _ _ e))
  ]

module _ {N : Type 0} (syntax : JsonSyntax) (client : HttpClient N)
    (comcont : CommandController) where
  -- Whether the request of a command is answered with the text of success.
  abbrev confirmed : Command → List String → Env N → Bool
  confirmed c arg e = accepted client syntax (wanted comcont c arg) e.state

  clear_iff :
      (type_clear path command tag : String) (e : Env N)
      → (url_by_type type_clear ≡ ok path)
      → ((text : String)
          → "Error: " ⧺ text ≢ type_clear ⧺ " bucket \"" ⧺ tag ⧺ "\" cleared successfully")
      → ((clear_bucket_by_tag syntax client comcont (command ∷ tag ∷ []) type_clear e).0
          ≡ ok (type_clear ⧺ " bucket \"" ⧺ tag ⧺ "\" cleared successfully"))
        ↔ (confirmed (clear type_clear) (command ∷ tag ∷ []) e ≡ true)
  unfolding clear_bucket_by_tag accepted wanted
  clear_iff type_clear path command tag e q h =
      rw (reported-ok (lift (url_by_type type_clear)) _ e path q, q)
        (confirm_iff client _ _ h _ e (exchange_result client delete _ _ _ e))

  -- An addition, a removal and the clearing of a bucket print the message of success exactly if the
  -- server has answered the request for it with a body that decodes to the text "Everything is OK".
  pub run_command-done :
      (listname command tag : String) (arg : List String) (e : Env N)
      → (((run_command syntax client comcont (list_add listname) arg e).0
            ≡ ok ("Subnet successfully added to " ⧺ listname ⧺ "."))
          ↔ (confirmed (list_add listname) arg e ≡ true))
        × (((run_command syntax client comcont (list_remove listname) arg e).0
              ≡ ok ("Subnet successfully removed from " ⧺ listname ⧺ "."))
            ↔ (confirmed (list_remove listname) arg e ≡ true))
        × (((run_command syntax client comcont (clear "login") (command ∷ tag ∷ []) e).0
              ≡ ok ("login" ⧺ " bucket \"" ⧺ tag ⧺ "\" cleared successfully"))
            ↔ (confirmed (clear "login") (command ∷ tag ∷ []) e ≡ true))
        × (((run_command syntax client comcont (clear "ip") (command ∷ tag ∷ []) e).0
              ≡ ok ("ip" ⧺ " bucket \"" ⧺ tag ⧺ "\" cleared successfully"))
            ↔ (confirmed (clear "ip") (command ∷ tag ∷ []) e ≡ true))
  unfolding run_command add_to_list remove_from_list url_by_type wanted
  run_command-done listname command tag arg e = (
    subnet_iff client syntax post _ _ (λ text. cons-append-ne "E" "S" _ _ text _ (ground arith)) arg
        e,
    subnet_iff client syntax delete _ _ (λ text. cons-append-ne "E" "S" _ _ text _ (ground arith))
        arg e,
    clear_iff "login" "/clearLogin/" command tag e refl
        (λ text. cons-append-ne "E" "l" _ _ text _ (ground arith)),
    clear_iff "ip" "/clearIp/" command tag e refl
        (λ text. cons-append-ne "E" "i" _ _ text _ (ground arith)),
  )
