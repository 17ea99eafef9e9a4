-- ===== src/Cli.antt =====
-- cmd/cli: the command line client. Its structs for the answers are those of the server.
pub mod Decode
pub mod Commands
pub mod Config
pub mod Main
pub mod Steps
pub mod Connected
pub mod Replies
pub mod Confirm
pub mod EndToEnd
pub mod Verdict
pub mod Lookup
pub mod Loop
pub mod Requests
pub mod Words
pub mod Sent
mod Tests
mod ConnectedTests
mod LookupTests
pub mod RoundTrip
pub mod Bodies
pub mod Answers
use golang_fin.Prelude.{String, List}
use golang_fin.Errors.{Result, ok, err, error_text}
use golang_fin.Exec.{Exec, lift, log_error, pure, ◌>>=◌, ◌>>◌}
use golang_fin.Server.{HttpMethod}
use golang_fin.Prelude.{◌⧺◌}

-- An `http.Request` of the client.
pub record ClientRequest : Type 0 where
  pub method : HttpMethod
  pub url : String
  pub body : String
  pub content_type : String

-- An `http.Response`: what `io.ReadAll` returns for its body.
pub record Response : Type 0 where
  pub body : Result String

-- What the client calls of net/http, over a network with a state: `NewRequest` looks at the address
-- only and leaves the header empty; `do` sends a request.
pub record HttpClient (N : Type 0) : Type 0 where
  pub parse_url : String → Result Unit
  pub do_request : ClientRequest → N → Result Response × N

-- `CommandController`, with the client it makes for each request, what `json.Unmarshal` scans, and
-- `unicode.ToLower` beyond ASCII.
pub record CommandController : Type 0 where
  pub address : String

module _ {N : Type 0} where
  abbrev pub new_request : HttpClient N → HttpMethod → String → String → Exec N ClientRequest
  new_request client method url body = do
    lift (client.parse_url url)
    pure (record { method = method; url = url; body = body; content_type = "" })

  abbrev pub do_request : HttpClient N → ClientRequest → Exec N Response
  do_request client r e =
      let (answer, n) = client.do_request r e.state in (answer, record e { state = n })

  -- A request up to the decoded answer; each of its steps may fail.
  unfoldable pub exchange :
      {A : Type 0} → HttpClient N → HttpMethod → String → String → (String → Result A) → Exec N A
  exchange client method url body decode = do
    req ← new_request client method url body
    resp ← do_request client (record req { content_type = "application/json" })
    resp_body ← lift resp.body
    lift (decode resp_body)

  -- `errStr := "Error: " + …; logger.Error(errStr); return errStr`
  unfoldable pub refuse : String → Exec N String
  refuse text = do log_error ("Error: " ⧺ text); pure ("Error: " ⧺ text)

  -- `if err != nil`, which every step of a command ends with.
  unfoldable pub reported : {A : Type 0} → Exec N A → (A → Exec N String) → Exec N String
  unfolding refuse
  reported m next e =
      let (r, e') = m e in elim r [ ok a ↦ next a e' | err x ↦ refuse (error_text x) e' ]
