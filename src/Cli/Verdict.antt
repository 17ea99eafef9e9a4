-- ===== src/Cli/Verdict.antt =====
-- The command `request` of cmd/cli, carried out by internal/server/http.
use golang_fin.Prelude.{String, ◌≡◌, refl, ◌∙◌, ap, [], ◌∷◌, ◌⧺◌, if◌then◌else◌}
use golang_fin.Std.Json.Syntax.{json_syntax}
use golang_fin.Errors.{ok}
use golang_fin.StorageData.{Context, RequestAuth}
use golang_fin.Exec.{Env}
use golang_fin.Interfaces.{Application}
use golang_fin.Server.{get, authorization}
use golang_fin.Server.Routes.{routes, has_prefix}
use golang_fin.Server.Decode.{unmarshal_request}
use golang_fin.Server.Replies.{verdict}
use golang_fin.Server.Answers.{serve_http-verdict}
use golang_fin.Cli.{HttpClient, CommandController}
use golang_fin.Cli.Decode.{unmarshal_authorization}
use golang_fin.Cli.RoundTrip.{authorization_read}
use golang_fin.Cli.Commands.{request_body, request, print_verdict}
use golang_fin.Cli.Steps.{reported-goes_on}
use golang_fin.Cli.Connected.{IsConnected, exchange-carried}
use golang_fin.Cli.Replies.{arrived, after_call, served-Replies}

module _ {S : Type 0} (error_of : String → String → String) (app : Application S) (ctx : Context)
    (client : HttpClient (Env S)) (comcont : CommandController)
    (connected : IsConnected error_of app ctx client comcont) where
  -- `request`, from the command to the printed text: the verdict of the server, and that of a refusal
  -- without a message if the check fails
  pub request-served :
      (command login password ip : String) (q : RequestAuth) (e : Env (Env S))
      → unmarshal_request (json_syntax error_of) (request_body login password ip) ≡ ok q
      → ((request (json_syntax error_of) client comcont (command ∷ login ∷ password ∷ ip ∷ []) e).0
          ≡ ok (
              "Is it bruteforce: "
              ⧺ (if (verdict (app.check_request ctx q e.state).0).passed then "No" else "Yes")
              ⧺ ", message: "
              ⧺ (verdict (app.check_request ctx q e.state).0).message))
        × ((request
              (json_syntax error_of)
              client
              comcont
              (command ∷ login ∷ password ∷ ip ∷ [])
              e).1.state.state
            ≡ (app.check_request ctx q e.state).1.state)
  unfolding request print_verdict routes has_prefix
  request-served command login password ip q e decodes =
      rw
        (reported-goes_on _ print_verdict e (verdict (app.check_request ctx q e.state).0)
          (after_call (app.check_request ctx q e.state) e.log)
          (exchange-carried error_of app ctx client comcont connected get "/request/"
              (request_body login password ip) _ (unmarshal_authorization (json_syntax error_of)) e
              _
              (served-Replies error_of app ctx (λ res. authorization (verdict res))
                (app.check_request ctx q e.state) get "/request/" (request_body login password ip)
                e.state
                (serve_http-verdict (json_syntax error_of) app "/request/"
                  (arrived ctx get (request_body login password ip)) e.state
                  (request_body login password ip) q refl refl refl decodes))
            ∙ ap (λ r. (r, after_call (app.check_request ctx q e.state) e.log))
                (authorization_read error_of _)))
        (refl, refl)
