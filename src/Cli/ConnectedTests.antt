-- ===== src/Cli/ConnectedTests.antt =====
-- The client before a server over the mock and a bucket storage in memory.
use golang_fin.Prelude.{String, [], ◌∷◌, ◌≡◌, refl, some, ◌⧺◌, if◌then◌else◌, false, arith, ap}
use package.text.Mathlib.TextLemmas.{cons-append, nil-append}
use golang_fin.Prelude.Int.{pos, IsInt64, ◌⊕◌}
use golang_fin.Std.Json.{JsonSyntax, text}
use golang_fin.Std.Strconv.{atoi, itoa}
use golang_fin.Errors.{ok, err, error_text, anti_bf_not_available}
use golang_fin.StorageData.{StorageIpData, RequestAuth, Context, string_build}
use golang_fin.Exec.{Env}
use golang_fin.StorageSqlMock.{Mock, mock_storage}
use golang_fin.Redis.{redis_storage}
use golang_fin.Redis.Memory.{Memory, memory_client}
use golang_fin.App.Service.{Stores, application}
use golang_fin.Interfaces.{Application}
use golang_fin.App.Service.{
  check_request, check_login_rate, check_password_rate, check_ip_rate, count_attempt,
  ip_is_in_subnet_check, ip_add_to_list, ip_remove_from_list,
}
use golang_fin.App.Validate.{simple_ip_data_validate, check_parts}
use golang_fin.App.Subnets.{check_list_name, scan_subnets, cidr_text}
use golang_fin.StorageSqlMock as Mock
use golang_fin.Std.Map.{delete, lookup, insert, values}
use golang_fin.Std.Net.{parse_ip}
use golang_fin.Std.Sort.{sort_stable}
use golang_fin.Redis.{increase_and_get_bucket_value}
use golang_fin.Redis.Memory.{incr, incr_by}
use golang_fin.Server.Routes.{routes, has_prefix}
use golang_fin.Server.Handlers.{done_message}
use golang_fin.Server.Replies.{message_of, verdict, list_of}
use golang_fin.Server.Decode.{unmarshal_ip_data, unmarshal_request}
use golang_fin.Cli.{HttpClient, CommandController}
use golang_fin.Cli.Commands.{
  add_to_list, remove_from_list, request, clear_bucket_by_tag, subnet_body, request_body,
  subnet_arg,
}
use golang_fin.Cli.Main.{line, Console, run}
use golang_fin.Cli.Connected.{IsConnected, served, run-fails, clear_ip-clears_nothing}
use golang_fin.Cli.Bodies.{unmarshal-body, is_plain}
use golang_fin.Std.Json.Scan.{next_number}
use golang_fin.Std.Json.NumberTrip.{is_numeral, num_start, num_run}
use golang_fin.Std.Json.Step.{scan, step, step_value, step_string, step_end, run as run_scanner}
use golang_fin.Std.Json.Syntax.{json_syntax}
use golang_fin.Cli.Verdict.{request-served}
use golang_fin.Cli.EndToEnd.{change-served}
use golang_fin.Cli.Confirm.{change_text}

abbrev pub app : Application (Stores Mock Memory)
app = application (record {
  storage = mock_storage (λ l. l);
  bucket_storage = redis_storage memory_client;
  limits = record { limit_login = pos 2; limit_password = pos 100; limit_ip = pos 1000 };
})

abbrev pub server : Env (Stores Mock Memory)
server = record {
  state = record {
    storage = record { whitelist = []; blacklist = []; id_white = 0; id_black = 0 };
    buckets = [];
  };
  log = [];
}

-- The text of every error of the scanner
abbrev pub error_of : String → String → String
error_of struct s = "invalid character"

abbrev pub syntax : JsonSyntax
syntax = json_syntax error_of

abbrev pub live : Context
live = record { done = false }

-- The path of an address, after what stands before it
pub strip : String → String → String
strip String.[] s = s
strip (String.◌∷◌ c p) String.[] = ""
strip (String.◌∷◌ c p) (String.◌∷◌ d s) = strip p s

strip-append : (p s : String) → strip p (p ⧺ s) ≡ s
unfolding strip
strip-append String.[] s = nil-append s
strip-append (String.◌∷◌ c p) s = rw (cons-append c p s) (strip-append p s)

abbrev pub comcont : CommandController
comcont = record { address = "127.0.0.1:4000" }

abbrev pub client : HttpClient (Env (Stores Mock Memory))
client = record {
  parse_url = λ url. ok tt;
  do_request =
      λ r n. served error_of app live r.method (strip "http://127.0.0.1:4000" r.url) r.body n;
}

pub connected : IsConnected error_of app live client comcont
unfolding string_build
connected = record {
  parses = λ path. refl;
  carries = λ method path body content_type n.
      ap (λ (p : String). served error_of app live method p body n)
        (strip-append "http://127.0.0.1:4000" path);
}

abbrev pub start : Env (Env (Stores Mock Memory))
start = record { state = server; log = [] }

abbrev console : Env (Console (Env (Stores Mock Memory)))
console = record { state = record { net = server; printed = [] }; log = [] }

run-fails_example :
    ((run syntax client comcont (λ ch. ch) (line "help" ∷ []) console).0
      ≡ err anti_bf_not_available)
    × ((run syntax client comcont (λ ch. ch) (line "help" ∷ []) console).1.state.printed ≡ [])
    × ((run syntax client comcont (λ ch. ch) (line "help" ∷ []) console).1.state.net.state
        ≡ server.state)
run-fails_example =
    run-fails error_of app live client comcont connected (λ ch. ch) (line "help" ∷ []) console

clear_ip-clears_nothing_example :
    ((clear_bucket_by_tag syntax client comcont ("ipcl" ∷ "10.0.0.1" ∷ []) "ip" start).0
      ≡ ok ("Error: " ⧺ "invalid character"))
    × ((clear_bucket_by_tag syntax client comcont
          ("ipcl" ∷ "10.0.0.1" ∷ [])
          "ip"
          start).1.state.state
        ≡ server.state)
clear_ip-clears_nothing_example =
    clear_ip-clears_nothing error_of app live client comcont connected "ipcl" "10.0.0.1" start

abbrev pub network : StorageIpData
network = record { ip = "10.0.0.0"; mask = pos 24; id = pos 0 }

pub subnet_split :
    (command : String) → subnet_arg (command ∷ "10.0.0.0/24" ∷ []) ≡ ok ("10.0.0.0", "24")
unfolding subnet_arg
subnet_split command = refl

pub to_white : list_of (routes "/whitelist/") ≡ some "whitelist"
unfolding routes has_prefix
to_white = refl

unmarshal-body_example :
    (unmarshal_ip_data syntax (subnet_body "10.0.0.0" "24") ≡ ok network)
    × (unmarshal_request syntax (request_body "ann" "pw" "10.0.0.0")
        ≡ ok (record { login = "ann"; password = "pw"; ip = "10.0.0.0" }))
unfolding is_plain is_numeral num_start num_run next_number atoi
unmarshal-body_example =
    unmarshal-body error_of "ann" "pw" "10.0.0.0" "24" (pos 24) refl refl refl refl refl

-- Everything that a call of the application computes with
pub service : Unit {0}
unfolding check_request check_login_rate check_password_rate check_ip_rate count_attempt
    ip_is_in_subnet_check ip_add_to_list ip_remove_from_list simple_ip_data_validate check_parts
    check_list_name scan_subnets cidr_text Mock.tag Mock.ip_get_all_from_list Mock.ip_add_to_list
    Mock.ip_is_in_list Mock.ip_remove_from_list delete values lookup sort_stable insert
    increase_and_get_bucket_value incr incr_by ◌⊕◌ atoi itoa parse_ip string_build error_text
service = tt

id_fits :
    IsInt64
      (message_of "Internal error: " done_message
        (app.ip_add_to_list live "whitelist" network server).0).code
unfolding service
id_fits = ground arith

change-served_example :
    ((add_to_list syntax client comcont ("wl" ∷ "10.0.0.0/24" ∷ []) "whitelist" start).0
      ≡ ok (
          change_text
            ("Subnet successfully added to " ⧺ "whitelist" ⧺ ".")
            (app.ip_add_to_list live "whitelist" network server).0))
    × ((add_to_list syntax client comcont
          ("wl" ∷ "10.0.0.0/24" ∷ [])
          "whitelist"
          start).1.state.state
        ≡ (app.ip_add_to_list live "whitelist" network server).1.state)
    × ((remove_from_list syntax client comcont ("wl" ∷ "10.0.0.0/24" ∷ []) "whitelist" start).0
        ≡ ok (
            change_text
              ("Subnet successfully removed from " ⧺ "whitelist" ⧺ ".")
              (app.ip_remove_from_list live "whitelist" network server).0))
    × ((remove_from_list syntax client comcont
          ("wl" ∷ "10.0.0.0/24" ∷ [])
          "whitelist"
          start).1.state.state
        ≡ (app.ip_remove_from_list live "whitelist" network server).1.state)
change-served_example =
    change-served error_of app live client comcont connected "whitelist" "wl" "10.0.0.0/24"
      "10.0.0.0" "24" network start (subnet_split "wl") to_white unmarshal-body_example.0 id_fits

abbrev ann : RequestAuth
ann = record { login = "ann"; password = "pw"; ip = "10.0.0.1" }

attempt_decodes : unmarshal_request syntax (request_body "ann" "pw" "10.0.0.1") ≡ ok ann
unfolding unmarshal_request scan run_scanner step step_value step_string step_end
attempt_decodes = refl

request-served_example :
    ((request syntax client comcont ("request" ∷ "ann" ∷ "pw" ∷ "10.0.0.1" ∷ []) start).0
      ≡ ok (
          "Is it bruteforce: "
          ⧺ (if (verdict (app.check_request live ann server).0).passed then "No" else "Yes")
          ⧺ ", message: "
          ⧺ (verdict (app.check_request live ann server).0).message))
    × ((request syntax client comcont
          ("request" ∷ "ann" ∷ "pw" ∷ "10.0.0.1" ∷ [])
          start).1.state.state
        ≡ (app.check_request live ann server).1.state)
request-served_example =
    request-served error_of app live client comcont connected "request" "ann" "pw" "10.0.0.1" ann
      start attempt_decodes
