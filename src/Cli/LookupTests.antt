-- ===== src/Cli/LookupTests.antt =====
-- Look-ups of the client in front of a server over the mock.
use golang_fin.Prelude.{[], ◌∷◌, ◌≡◌, refl, arith}
use golang_fin.Prelude.Int.{pos}
use golang_fin.Std.Strconv.{atoi}
use golang_fin.Std.Json.Scan.{next_number}
use golang_fin.Std.Json.NumberTrip.{is_numeral, num_start, num_run}
use golang_fin.Errors.{ok}
use golang_fin.Exec.{Env}
use golang_fin.App.Service.{Stores, ip_get_all_from_list}
use golang_fin.App.Subnets.{check_list_name}
use golang_fin.StorageSqlMock.{Mock}
use golang_fin.StorageSqlMock as Mock
use golang_fin.Std.Map.{values}
use golang_fin.Std.Sort.{sort_stable}
use golang_fin.Redis.Memory.{Memory}
use golang_fin.Server.Decode.{unmarshal_ip_data}
use golang_fin.Server.Handlers.{ip_list_of}
use golang_fin.Cli.Commands.{is_in_list, all_in_list, subnet_body}
use golang_fin.Cli.RoundTrip.{AllFit}
use golang_fin.Cli.Bodies.{unmarshal-body, is_plain}
use golang_fin.Cli.Lookup.{look_up-served, found_text, list_text}
use golang_fin.Cli.ConnectedTests.{
  app, error_of, syntax, live, comcont, client, connected, network, subnet_split, to_white,
}

-- A server whose white list holds the network
abbrev holding : Env (Stores Mock Memory)
holding = record {
  state = record {
    storage = record {
      whitelist = ("10.0.0.0/24", network) ∷ [];
      blacklist = [];
      id_white = 1;
      id_black = 0;
    };
    buckets = [];
  };
  log = [];
}

abbrev begun : Env (Env (Stores Mock Memory))
begun = record { state = holding; log = [] }

entries_fit : AllFit (ip_list_of (app.ip_get_all_from_list live "whitelist" holding).0)
unfolding ip_get_all_from_list check_list_name Mock.ip_get_all_from_list values sort_stable
entries_fit = ground arith

body_decodes : unmarshal_ip_data syntax (subnet_body "10.0.0.0" "24") ≡ ok network
unfolding is_plain is_numeral num_start num_run next_number atoi
body_decodes =
    (unmarshal-body error_of "ann" "pw" "10.0.0.0" "24" (pos 24) refl refl refl refl refl).0

look_up-served_example :
    ((is_in_list syntax client comcont ("wlin" ∷ "10.0.0.0/24" ∷ []) "whitelist" begun).0
      ≡ ok (found_text "whitelist" (app.ip_is_in_list live "whitelist" network holding).0))
    × ((is_in_list syntax client comcont
          ("wlin" ∷ "10.0.0.0/24" ∷ [])
          "whitelist"
          begun).1.state.state
        ≡ (app.ip_is_in_list live "whitelist" network holding).1.state)
    × ((all_in_list syntax client comcont "whitelist" begun).0
        ≡ ok (list_text "whitelist" (app.ip_get_all_from_list live "whitelist" holding).0))
    × ((all_in_list syntax client comcont "whitelist" begun).1.state.state
        ≡ (app.ip_get_all_from_list live "whitelist" holding).1.state)
look_up-served_example =
    look_up-served error_of app live client comcont connected "whitelist" "wlin" "10.0.0.0/24"
      "10.0.0.0" "24" network begun (subnet_split "wlin") to_white body_decodes refl entries_fit
