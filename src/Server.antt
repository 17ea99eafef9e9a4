-- ===== src/Server.antt =====
-- internal/server/http: the requests and answers of the server, and how a handler works on them.
pub mod Decode
pub mod Encode
pub mod Handlers
pub mod Routes
pub mod Steps
pub mod Requests
pub mod Service
pub mod Replies
pub mod Answers
pub mod Paths
pub mod Shutdown
mod Tests
use golang_fin.Prelude.{String, Bool, Option, none, some, List, [], ◌∷◌, ◌++◌, ◌⧺◌, if◌then◌else◌}
use golang_fin.Prelude.Int.{ℤ, pos}
use golang_fin.Errors.{GoError, Result, ok, err, error_text, external}
use golang_fin.StorageData.{StorageIpData, Context, string_build}
use golang_fin.Exec.{Exec, Env, pure, fail, catch, zoom, ◌>>=◌, ◌>>◌}

pub data HttpMethod : Type 0 where
  get post delete : HttpMethod
  other : String → HttpMethod

-- A request as a handler finds it: what `io.ReadAll` returns for its body, and the context that its
-- calls of the application get.
pub record HttpRequest : Type 0 where
  pub method : HttpMethod
  pub body : Result String
  pub ctx : Context

-- `outputJSON`
pub record OutputJson : Type 0 where
  pub text : String
  pub code : ℤ

-- `AuthorizationRequestAnswer`
pub record AuthorizationRequestAnswer : Type 0 where
  pub message : String
  pub passed : Bool

-- `IPListResult`; the nil slice is `none`.
pub record IpListResult : Type 0 where
  pub ip_list : Option (List StorageIpData)
  pub message : OutputJson

-- What is written into a response: a plain text, or a struct, which `json.Marshal` always encodes.
pub data Payload : Type 0 where
  plain : String → Payload
  output_json : OutputJson → Payload
  authorization : AuthorizationRequestAnswer → Payload
  ip_list_result : IpListResult → Payload

-- A `ResponseWriter`: whether its connection is lost, the values of the header X-Request-Error and
-- what has been written.
pub record Writer : Type 0 where
  pub broken : Bool
  pub error_header : List String
  pub written : List Payload

-- The state of the application and the response under construction.
pub record Served (S : Type 0) : Type 0 where
  pub app : S
  pub writer : Writer

module _ {S : Type 0} where
  -- A call of the application, whose error the handler looks at itself.
  abbrev pub call_app : {A : Type 0} → Exec S A → Exec (Served S) (Result A)
  call_app m e =
      let (r, e') = m (record { state = e.state.app; log = e.log }) in
      (ok r, record { state = record { app = e'.state; writer = e.state.writer }; log = e'.log })

  -- `w.Header().Add("X-Request-Error", …)`
  abbrev pub add_error_header : String → Exec (Served S) Unit
  add_error_header value e =
      let w = e.state.writer in
      (
        ok tt,
        record e {
          state = record {
            app = e.state.app;
            writer = record w { error_header = w.error_header ++ (value ∷ []) };
          };
        },
      )

  -- `w.Write`
  abbrev pub write : Payload → Exec (Served S) Unit
  write p e =
      let w = e.state.writer in
      if w.broken then (err (external "write failed"), e) else (
        ok tt,
        record e {
          state = record {
            app = e.state.app;
            writer = record w { written = w.written ++ (p ∷ []) };
          };
        },
      )

  -- `http.Error`, after a status has been sent.
  abbrev pub http_error : String → Exec (Served S) Unit
  http_error message = catch (write (plain message)) (λ _. pure tt)

  -- `apiErrHandler`
  unfoldable pub api_err_handler : GoError → Exec (Served S) Unit
  api_err_handler x =
      catch (write (output_json (record { text = error_text x; code = pos 1 })))
        (λ e. http_error (string_build ("Internal Server Error" ∷ " (" ∷ error_text e ∷ ")" ∷ [])))

  -- How every handler writes its answer.
  unfoldable pub answer : Payload → Exec (Served S) Unit
  unfolding api_err_handler
  answer p = catch (write p) api_err_handler
