-- ===== src/Cli/Replies.antt =====
-- A response of the server, as the client of cmd/cli gets it.
use golang_fin.Prelude.{String, ◌≡◌, refl, false}
use text.Mathlib.TextLemmas.{append-nil}
use golang_fin.Std.Json.Syntax.{json_syntax}
use golang_fin.Errors.{Result, ok}
use golang_fin.StorageData.{Context}
use golang_fin.Exec.{Env, Log}
use golang_fin.Interfaces.{Application}
use golang_fin.Server.{HttpMethod, HttpRequest, Payload}
use golang_fin.Server.Routes.{serve_http}
use golang_fin.Server.Replies.{Replies, logged}
use golang_fin.Cli.Connected.{served, payload_text, response_text}

-- A request with its body read
abbrev pub arrived : Context → HttpMethod → String → HttpRequest
arrived ctx method body = record { method = method; body = ok body; ctx = ctx }

-- The server after a call and its answer, and the log of the client
abbrev pub after_call : {S A : Type 0} → Result A × Env S → Log → Env (Env S)
after_call call log = record {
  state = record { state = call.1.state; log = logged call.0 call.1.log };
  log = log;
}

module _ {S A : Type 0} (error_of : String → String → String) (app : Application S)
    (ctx : Context) where
  -- A response of one answer, as the client gets it
  pub served-Replies :
      (payload : Result A → Payload) (call : Result A × Env S) (method : HttpMethod)
      (path body : String) (n : Env S)
      → Replies payload call
          (serve_http (json_syntax error_of) app false path (arrived ctx method body) n)
      → served error_of app ctx method path body n ≡ (
        ok (record { body = ok (payload_text (payload call.0)) }),
        record { state = call.1.state; log = logged call.0 call.1.log },
      )
  unfolding served response_text
  served-Replies payload call method path body n h =
      rw (h, append-nil (payload_text (payload call.0))) refl
