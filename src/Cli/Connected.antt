-- ===== src/Cli/Connected.antt =====
-- The client of cmd/cli connected to the server of internal/server/http, over any application.
use golang_fin.Prelude.{String, ◌≡◌, refl, ◌∙◌, List, [], ◌∷◌, ◌⧺◌, false, Char, none}
use text.Mathlib.TextLemmas.{append_assoc}
use golang_fin.Std.Json.Print.{print}
use golang_fin.Std.Json.Step.{scan, step_value}
use golang_fin.Std.Json.Syntax.{json_syntax}
use golang_fin.Errors.{Result, ok, err, error_text, external, anti_bf_not_available}
use golang_fin.StorageData.{Context, string_build}
use golang_fin.Exec.{Env, lift}
use golang_fin.Interfaces.{Application}
use golang_fin.Server.{
  HttpMethod, get, delete, Payload, plain, output_json, authorization, ip_list_result,
}
use golang_fin.Server.Routes.{
  serve_http, routes, has_prefix, logging_middleware, log_served, handler, hello,
}
use golang_fin.Server.Handlers.{hello_world}
use golang_fin.Server.Replies.{logged_request}
use golang_fin.Server.Encode.{output_object, authorization_object, ip_list_object}
use golang_fin.Cli.{HttpClient, Response, CommandController, exchange, refuse}
use golang_fin.Cli.Commands.{root_url, list_url, clear_bucket_by_tag, url_by_type}
use golang_fin.Cli.Steps.{reported-goes_on, reported-refuses}
use golang_fin.Cli.Main.{ping_anti_bf, Turn, Console, run}
use golang_fin.Cli.Decode.{unmarshal_output}
use golang_fin.Server.Decode.{unmarshal}

abbrev pub payload_text : Payload → String
payload_text (plain s) = s
payload_text (output_json o) = print (output_object o)
payload_text (authorization a) = print (authorization_object a)
payload_text (ip_list_result l) = print (ip_list_object l)

-- The bytes of a response
unfoldable pub response_text : List Payload → String
response_text [] = ""
response_text (p ∷ ps) = payload_text p ⧺ response_text ps

module _ {S : Type 0} (error_of : String → String → String) (app : Application S)
    (ctx : Context) where
  -- What the client gets for a request to the server, and the server after it.
  unfoldable pub served : HttpMethod → String → String → Env S → Result Response × Env S
  served method path body n =
      let (w, n') =
        serve_http (json_syntax error_of) app false path
          (record { method = method; body = ok body; ctx = ctx }) n in
      (ok (record { body = ok (response_text w.written) }), n')

  -- The greeting, whatever the request is
  pub served-hello :
      (method : HttpMethod) (path body : String) (n : Env S)
      → routes path ≡ hello
      → served method path body n ≡ (
        ok (record { body = ok "Hello World" }),
        record { state = n.state; log = logged_request ∷ n.log },
      )
  unfolding served serve_http handler logging_middleware log_served hello_world response_text
  served-hello method path body n h = rw (h) refl

  -- The network carries the requests for an address to the server, and its responses back.
  pub record IsConnected (client : HttpClient (Env S)) (comcont : CommandController) : Type 0 where
    pub parses : (path : String) → client.parse_url (root_url comcont path) ≡ ok tt
    pub carries :
        (method : HttpMethod) (path body content_type : String) (n : Env S)
        → client.do_request
            (record {
              method = method;
              url = root_url comcont path;
              body = body;
              content_type = content_type;
            })
            n
          ≡ served method path body n

-- The greeting is no JSON value.
greeting_unknown : scan "Hello World" ≡ none
unfolding scan step_value
greeting_unknown = refl

pub list_url-root :
    (comcont : CommandController) (listname : String)
    → list_url comcont listname ≡ root_url comcont ("/" ⧺ listname ⧺ "/")
unfolding string_build
list_url-root comcont listname =
    append_assoc _ listname "/" ∙ append_assoc ("http://" ⧺ comcont.address) "/" (listname ⧺ "/")

module _ {S : Type 0} (error_of : String → String → String) (app : Application S) (ctx : Context)
    (client : HttpClient (Env S)) (comcont : CommandController)
    (connected : IsConnected error_of app ctx client comcont) where
  open connected use {parses, carries}

  -- The first request of the client always fails.
  pub ping_anti_bf-fails :
      (e : Env (Env S)) → (ping_anti_bf client comcont.address e).0 ≡ err anti_bf_not_available
  unfolding ping_anti_bf routes has_prefix
  ping_anti_bf-fails e =
      rw
        (
          parses "/",
          carries get "/" "" "" e.state,
          served-hello error_of app ctx get "/" "" e.state refl,
        )
        refl

  -- A client in front of the server stops at its first request, with nothing printed and the server's
  -- state as it was.
  pub run-fails :
      (beyond : Char → Char) (turns : List Turn) (e : Env (Console (Env S)))
      → ((run (json_syntax error_of) client comcont beyond turns e).0 ≡ err anti_bf_not_available)
        × ((run (json_syntax error_of) client comcont beyond turns e).1.state.printed
            ≡ e.state.printed)
        × ((run (json_syntax error_of) client comcont beyond turns e).1.state.net.state
            ≡ e.state.net.state)
  unfolding run ping_anti_bf routes has_prefix
  run-fails beyond turns e =
      rw
        (
          parses "/",
          carries get "/" "" "" e.state.net,
          served-hello error_of app ctx get "/" "" e.state.net refl,
        )
        (refl, refl, refl)

  -- The steps of a command, when the server answers with a text
  pub exchange-carried :
      {A : Type 0} (method : HttpMethod) (path body text : String) (decode : String → Result A)
      (e : Env (Env S)) (n : Env S)
      → served error_of app ctx method path body e.state ≡ (ok (record { body = ok text }), n)
      → exchange client method (root_url comcont path) body decode e
        ≡ (decode text, record { state = n; log = e.log })
  unfolding exchange
  exchange-carried method path body text decode e n h =
      rw (parses path, carries method path body "application/json" e.state, h) refl

  ipcl-refuses :
      (command tag : String) (e : Env (Env S))
      → clear_bucket_by_tag (json_syntax error_of) client comcont (command ∷ tag ∷ []) "ip" e
        ≡ refuse (error_of "outputJSON" "Hello World") (record {
          state = record { state = e.state.state; log = logged_request ∷ e.state.log };
          log = e.log;
        })
  unfolding clear_bucket_by_tag url_by_type routes has_prefix unmarshal_output unmarshal error_text
  ipcl-refuses command tag e =
      reported-goes_on (lift (url_by_type "ip")) _ e "/clearIp/" e refl
      ∙ reported-refuses _ _ e (external (error_of "outputJSON" "Hello World")) _ (
          exchange-carried delete "/clearIp/" _ "Hello World"
            (unmarshal_output (json_syntax error_of)) e _
            (served-hello error_of app ctx delete "/clearIp/" _ e.state refl)
          ∙ rw (unmarshal_output, unmarshal, greeting_unknown) refl)

  -- `ipcl` asks for a path that the server does not know: no bucket is cleared, and the text of the
  -- greeting is what is decoded.
  pub clear_ip-clears_nothing :
      (command tag : String) (e : Env (Env S))
      → ((clear_bucket_by_tag (json_syntax error_of) client comcont (command ∷ tag ∷ []) "ip" e).0
          ≡ ok ("Error: " ⧺ error_of "outputJSON" "Hello World"))
        × ((clear_bucket_by_tag
              (json_syntax error_of)
              client
              comcont
              (command ∷ tag ∷ [])
              "ip"
              e).1.state.state
            ≡ e.state.state)
  unfolding refuse
  clear_ip-clears_nothing command tag e = rw (ipcl-refuses command tag e) (refl, refl)
