-- ===== src/Server/Tests.antt =====
-- Requests to the server over the mock and a server in memory, and its theorems at such requests.
use golang_fin.Prelude.{
  String, ◌≡◌, refl, arith, true, false, Option, some, none, List, [], ◌∷◌, inl, ◌⊎◌, ◌=~◌,
  if◌then◌else◌, length,
}
use golang_fin.Prelude.Int.{pos}
use golang_fin.Std.Json.{Json, JsonSyntax, object, member, no_members, text, number}
use golang_fin.Std.Map.{lookup}
use golang_fin.Std.Strconv.{atoi}
use golang_fin.Errors.{ok}
use golang_fin.StorageData.{RequestAuth, Context}
use golang_fin.Exec.{Exec, Env}
use golang_fin.StorageSqlMock.{Mock, mock_storage}
use golang_fin.StorageSqlMock.Listing.{same_tag, holds, mock-IsListing}
use golang_fin.Redis.{redis_storage}
use golang_fin.Redis.Memory.{Memory, memory_client}
use golang_fin.App.Service.{App, Stores, application}
use golang_fin.App.Service.Disjoint.{Op, perform, IsDisjoint}
use golang_fin.Server.{HttpRequest, HttpMethod, get, post, delete, output_json, authorization}
use golang_fin.Server.Decode.{unmarshal_request, unmarshal_ip_data, unmarshal_tag}
use golang_fin.Server.Routes.{shutdown, routes, request, login_reset, white_list, serve_http}
use golang_fin.Server.Handlers.{done_message}
use golang_fin.Server.Service.{
  Arrival, serve_all, serve_http-step, length-serve_http, serve_all-IsDisjoint,
}
use golang_fin.Server.Replies.{list_of, Replies, ListReplies, clear_call, verdict, message_of}
use golang_fin.Server.Answers.{serve_http-verdict, serve_http-clear, serve_http-ListReplies}
use golang_fin.Server.Shutdown.{EndsAfter, shutdown-EndsAfter}

abbrev app : App Mock Memory
app = record {
  storage = mock_storage (λ l. l);
  bucket_storage = redis_storage memory_client;
  limits = record { limit_login = pos 2; limit_password = pos 100; limit_ip = pos 1000 };
}

abbrev start : Env (Stores Mock Memory)
start = record {
  state = record {
    storage = record { whitelist = []; blacklist = []; id_white = 0; id_black = 0 };
    buckets = [];
  };
  log = [];
}

-- A scanner that knows the bodies of the tests.
abbrev entry_body : String
entry_body = "{\"IP\":\"10.0.0.0\", \"Mask\":24}"

abbrev request_body : String
request_body = "{\"login\":\"ann\", \"PASSWORD\":\"pw\", \"IP\":\"10.0.0.1\"}"

abbrev tag_body : String
tag_body = "{\"Tag\":\"ann\"}"

scanned : String → Option Json
scanned body =
    if body =~ entry_body
    then some (object (member "IP" (text "10.0.0.0") (member "Mask" (number "24") no_members)))
    else if body =~ request_body
    then some (
        object (
          member "login" (text "ann")
            (member "PASSWORD" (text "pw") (member "IP" (text "10.0.0.1") no_members))))
    else if body =~ tag_body
    then some (object (member "Tag" (text "ann") no_members))
    else none

abbrev syntax : JsonSyntax
syntax = record { scan = scanned; error_of = λ struct body. "unexpected end of JSON input" }

abbrev live : Context
live = record { done = false }

abbrev sent : HttpMethod → String → HttpRequest
sent method body = record { method = method; body = ok body; ctx = live }

abbrev arrivals : List Arrival
arrivals =
    (false, "/whitelist/", sent post entry_body)
    ∷ (true, "/blacklist/", sent post entry_body)
    ∷ (false, "/nowhere", sent get "")
    ∷ []

length-serve_http_example :
    length
      (serve_http syntax
        (application app)
        false
        "/whitelist/"
        (sent post entry_body)
        start).0.written
    ≡ 1
length-serve_http_example = length-serve_http syntax app "/whitelist/" (sent post entry_body) start

serve_http-step_example :
    ((serve_http syntax (application app) true "/whitelist/" (sent post entry_body) start).1.state
      ≡ start.state)
    ⊎ ((op : Op) × ((serve_http syntax
            (application app)
            true
            "/whitelist/"
            (sent post entry_body)
            start).1.state
          ≡ (perform app live op start).state))
serve_http-step_example = serve_http-step syntax app true "/whitelist/" (sent post entry_body) start

empty_lists : IsDisjoint app same_tag holds (mock-IsListing (λ l. l)) start
unfolding lookup
empty_lists = record { apart = λ d w b. ground arith }

serve_all-IsDisjoint_example :
    IsDisjoint app same_tag holds (mock-IsListing (λ l. l)) (serve_all syntax app arrivals start)
serve_all-IsDisjoint_example =
    serve_all-IsDisjoint syntax app same_tag holds (mock-IsListing (λ l. l)) arrivals start
      empty_lists

is_request :
    unmarshal_request syntax request_body
    ≡ ok (record { login = "ann"; password = "pw"; ip = "10.0.0.1" })
unfolding unmarshal_request scanned
is_request = refl

is_entry :
    unmarshal_ip_data syntax entry_body ≡ ok (record { ip = "10.0.0.0"; mask = pos 24; id = pos 0 })
unfolding unmarshal_ip_data scanned atoi
is_entry = refl

is_tag : unmarshal_tag syntax tag_body ≡ ok (record { tag = "ann" })
unfolding unmarshal_tag scanned
is_tag = refl

to_request : routes "/request/" ≡ request
unfolding routes
to_request = refl

to_login : routes "/clearLogin/" ≡ login_reset
unfolding routes
to_login = refl

to_white : routes "/whitelist/" ≡ white_list
unfolding routes
to_white = refl

serve_http-verdict_example :
    Replies
      (λ res. authorization (verdict res))
      ((application app).check_request live
        (record { login = "ann"; password = "pw"; ip = "10.0.0.1" })
        start)
      (serve_http syntax (application app) false "/request/" (sent get request_body) start)
serve_http-verdict_example =
    serve_http-verdict syntax (application app) "/request/" (sent get request_body) start
      request_body (record { login = "ann"; password = "pw"; ip = "10.0.0.1" }) to_request refl refl
      is_request

serve_http-clear_example :
    Replies
      (λ res. output_json (message_of "" (λ _. done_message (pos 0)) res))
      (clear_call (application app) live start (routes "/clearLogin/") "ann")
      (serve_http syntax (application app) false "/clearLogin/" (sent delete tag_body) start)
serve_http-clear_example =
    serve_http-clear syntax (application app) "/clearLogin/" (sent delete tag_body) start tag_body
      (record { tag = "ann" }) (inl to_login) refl refl is_tag

white_root : list_of (routes "/whitelist/") ≡ some "whitelist"
white_root = rw to_white refl

serve_http-ListReplies_example :
    ListReplies
      (application app)
      live
      start
      post
      "whitelist"
      (record { ip = "10.0.0.0"; mask = pos 24; id = pos 0 })
      (serve_http syntax (application app) false "/whitelist/" (sent post entry_body) start)
serve_http-ListReplies_example =
    serve_http-ListReplies syntax (application app) "/whitelist/" (sent post entry_body) start
      entry_body "whitelist" (record { ip = "10.0.0.0"; mask = pos 24; id = pos 0 }) white_root refl
      is_entry

abbrev attempt : RequestAuth
attempt = record { login = "ann"; password = "pw"; ip = "10.0.0.1" }

-- While the server stops, the last request is served.
abbrev stop_server : Context → Exec (Stores Mock Memory) Unit
stop_server ctx e = (ok tt, ((application app).check_request ctx attempt e).1)

shutdown-EndsAfter_example :
    EndsAfter
      (("Server failed to shutdown: ", stop_server live)
        ∷ ("Server failed to close storage: ", (application app).close_storage live)
        ∷ ("Server failed to close bucket storage: ", (application app).close_bucket_storage live)
        ∷ [])
      start
      (shutdown syntax (application app) stop_server live start)
shutdown-EndsAfter_example = shutdown-EndsAfter syntax (application app) stop_server live start
