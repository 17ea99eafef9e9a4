-- ===== src/Cli/Requests.antt =====
-- cmd/cli/cli.go: the requests that the commands send.
use golang_fin.Prelude.{
  String, Char, List, [], ◌∷◌, Option, none, some, ◌⧺◌, ◌≡◌, refl, ◌∙◌, arith, inl, inr,
}
use golang_fin.Std.Json.{JsonSyntax}
use golang_fin.Errors.{Result, ok, err}
use golang_fin.Exec.{Exec, Env, Result-cases, lift}
use golang_fin.Server.{HttpMethod, get, post, delete, OutputJson, IpListResult}
use golang_fin.Cli.{HttpClient, ClientRequest, CommandController, exchange, refuse, reported}
use golang_fin.Cli.Steps.{reported-ok, reported-err}
use golang_fin.Cli.Commands.{
  subnet_arg, subnet_body, request_body, confirm, found_in_list, print_list, print_verdict,
  add_to_list, remove_from_list, is_in_list, all_in_list, request, clear_bucket_by_tag, url_by_type,
  list_url, root_url,
}
use golang_fin.Cli.Main.{
  Command, show_help, list_add, list_remove, list_is_in, list_all_in, clear, check, unsupported,
  run_command, process_command, command_of, command_data, command_name,
}

abbrev pub json_request : HttpMethod → String → String → ClientRequest
json_request method url body = record {
  method = method;
  url = url;
  body = body;
  content_type = "application/json";
}

-- The request of a command about one network
abbrev pub subnet_request : HttpMethod → String → Result (String × String) → Option ClientRequest
subnet_request method url (ok (ip, mask)) = some (json_request method url (subnet_body ip mask))
subnet_request method url (err x) = none

abbrev check_wanted : CommandController → List String → Option ClientRequest
check_wanted comcont (command ∷ login ∷ password ∷ ip ∷ []) =
    some (json_request get (root_url comcont "/request/") (request_body login password ip))
check_wanted comcont _ = none

abbrev clear_request : CommandController → String → Result String → Option ClientRequest
clear_request comcont tag (ok path) =
    some (json_request delete (root_url comcont path) ("{\"Tag\":\"" ⧺ tag ⧺ "\"}"))
clear_request comcont tag (err x) = none

abbrev clear_wanted : CommandController → String → List String → Option ClientRequest
clear_wanted comcont type_clear (command ∷ tag ∷ []) =
    clear_request comcont tag (url_by_type type_clear)
clear_wanted comcont type_clear _ = none

-- The request that a command stands for, if it has the arguments for one.
unfoldable pub wanted : CommandController → Command → List String → Option ClientRequest
wanted comcont show_help arg = none
wanted comcont (list_add listname) arg =
    subnet_request post (list_url comcont listname) (subnet_arg arg)
wanted comcont (list_remove listname) arg =
    subnet_request delete (list_url comcont listname) (subnet_arg arg)
wanted comcont (list_is_in listname) arg =
    subnet_request get (list_url comcont listname) (subnet_arg arg)
wanted comcont (list_all_in listname) arg =
    some (json_request get (root_url comcont ("/" ⧺ listname ⧺ "/")) "{\"IP\":\"ALL\", \"Mask\":0}")
wanted comcont (clear type_clear) arg = clear_wanted comcont type_clear arg
wanted comcont check arg = check_wanted comcont arg
wanted comcont unsupported arg = none

module _ {N : Type 0} (client : HttpClient N) where
  abbrev sent_if : Result Unit → ClientRequest → N → N
  sent_if (ok u) r n = (client.do_request r n).1
  sent_if (err x) r n = n

  -- The network after a request, if there is one and its address can be parsed.
  unfoldable pub after : Option ClientRequest → N → N
  after none n = n
  after (some r) n = sent_if (client.parse_url r.url) r n

  exchange_state :
      {A : Type 0} (method : HttpMethod) (url body : String) (decode : String → Result A)
      (e : Env N)
      → (exchange client method url body decode e).1.state
        ≡ after (some (json_request method url body)) e.state
  unfolding exchange after
  exchange_state method url body decode e = elim (Result-cases (client.parse_url url)) [
    | inr (x, q) ↦ ground (arith, q)
    | inl (u, q) ↦
        elim (Result-cases (client.do_request (json_request method url body) e.state).0) [
          | inr (x, q1) ↦ ground (arith, q, q1)
          | inl (resp, q1) ↦ elim (Result-cases resp.body) [
            | inr (x, q2) ↦ ground (arith, q, q1, q2)
            | inl (text, q2) ↦ ground (arith, q, q1, q2)
          ]
        ]
  ]

  -- What `errStr` and the answers do to the network: nothing.
  abbrev Keeps : {A : Type 0} → Exec N A → Type 0
  Keeps m = (e : Env N) → (m e).1.state ≡ e.state

  reported_state :
      {A : Type 0} (m : Exec N A) (next : A → Exec N String)
      → ((a : A) → Keeps (next a))
      → (e : Env N) → (reported m next e).1.state ≡ (m e).1.state
  unfolding refuse
  reported_state m next h e = elim (Result-cases (m e).0) [
    | inl (a, q) ↦ rw (reported-ok m next e a q, h a)
    | inr (x, q) ↦ rw (reported-err m next e x q)
  ]

  confirm_state : (answer : OutputJson) (msg : String) → Keeps (confirm answer msg)
  unfolding confirm refuse
  confirm_state answer msg e = ground arith

  found_state : (listname : String) (answer : IpListResult) → Keeps (found_in_list listname answer)
  unfolding found_in_list refuse
  found_state listname answer e = ground arith

  print_list_state :
      (listname : String) (answer : IpListResult) → Keeps (print_list listname answer)
  unfolding print_list refuse
  print_list_state listname answer e = ground arith

  -- A command about one network
  subnet_state :
      {A : Type 0} (method : HttpMethod) (url : String) (decode : String → Result A)
      (next : A → Exec N String)
      → ((a : A) → Keeps (next a))
      → (arg : List String) (e : Env N)
      → (reported
          (lift (subnet_arg arg))
          (λ (ip, mask). reported (exchange client method url (subnet_body ip mask) decode) next)
          e).1.state
        ≡ after (subnet_request method url (subnet_arg arg)) e.state
  unfolding refuse after
  subnet_state method url decode next h arg e = elim (Result-cases (subnet_arg arg)) [
    | inr (x, q) ↦ rw (reported-err (lift (subnet_arg arg)) _ e x q, q)
    | inl ((ip, mask), q) ↦ rw (
      reported-ok (lift (subnet_arg arg)) _ e (ip, mask) q,
      reported_state _ next h e,
      exchange_state method url _ decode e,
      q,
    )
  ]

module _ {N : Type 0} (syntax : JsonSyntax) (client : HttpClient N)
    (comcont : CommandController) where
  request_state :
      (arg : List String) (e : Env N)
      → (request syntax client comcont arg e).1.state
        ≡ after client (check_wanted comcont arg) e.state
  unfolding request after refuse print_verdict
  request_state (command ∷ login ∷ password ∷ ip ∷ []) e =
      reported_state client _ _ (λ a e. refl) e ∙ exchange_state client get _ _ _ e
  request_state [] e = refl
  request_state (a ∷ []) e = refl
  request_state (a ∷ b ∷ []) e = refl
  request_state (a ∷ b ∷ c ∷ []) e = refl
  request_state (a ∷ b ∷ c ∷ d ∷ f ∷ l) e = refl

  clear_state :
      (type_clear : String) (arg : List String) (e : Env N)
      → (clear_bucket_by_tag syntax client comcont arg type_clear e).1.state
        ≡ after client (clear_wanted comcont type_clear arg) e.state
  unfolding clear_bucket_by_tag after refuse
  clear_state type_clear (command ∷ tag ∷ []) e = elim (Result-cases (url_by_type type_clear)) [
    | inr (x, q) ↦ rw (reported-err (lift (url_by_type type_clear)) _ e x q, q)
    | inl (path, q) ↦
        rw (reported-ok (lift (url_by_type type_clear)) _ e path q, q)
          (reported_state client _ _ (λ a. confirm_state client a _) e
            ∙ exchange_state client delete _ _ _ e)
  ]
  clear_state type_clear [] e = refl
  clear_state type_clear (a ∷ []) e = refl
  clear_state type_clear (a ∷ b ∷ c ∷ l) e = refl

  run_state :
      (c : Command) (arg : List String) (e : Env N)
      → (run_command syntax client comcont c arg e).1.state
        ≡ after client (wanted comcont c arg) e.state
  unfolding run_command wanted after add_to_list remove_from_list is_in_list all_in_list
  run_state show_help arg e = refl
  run_state (list_add listname) arg e =
      subnet_state client post _ _ _ (λ a. confirm_state client a _) arg e
  run_state (list_remove listname) arg e =
      subnet_state client delete _ _ _ (λ a. confirm_state client a _) arg e
  run_state (list_is_in listname) arg e =
      subnet_state client get _ _ _ (found_state client listname) arg e
  run_state (list_all_in listname) arg e =
      reported_state client _ _ (print_list_state client listname) e
      ∙ exchange_state client get _ _ _ e
  run_state (clear type_clear) arg e = clear_state type_clear arg e
  run_state check arg e = request_state arg e
  run_state unsupported arg e = refl

  -- A command line sends the one request that its command and arguments stand for, or none, and the
  -- network is otherwise left alone; an address that cannot be parsed sends none.
  pub process_command-wanted :
      (beyond : Char → Char) (raw_command : String) (e : Env N)
      → (process_command syntax client comcont beyond raw_command e).1.state
        ≡ after client
            (wanted comcont
              (command_of (command_name (command_data beyond raw_command)))
              (command_data beyond raw_command))
            e.state
  unfolding process_command
  process_command-wanted beyond raw_command e = run_state _ _ _
