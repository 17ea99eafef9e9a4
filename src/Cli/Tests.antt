-- ===== src/Cli/Tests.antt =====
-- Commands over a network that remembers the requests, and the theorems about them at such commands.
use golang_fin.Prelude.{
  String, Char, List, [], ◌∷◌, ◌++◌, ◌≡◌, refl, some, ◌⧺◌, ◌↔◌, true, arith, inr, length, All, ◌+◌,
  ne_of_eq_false,
}
use golang_fin.Prelude.Int.{pos, negsuc}
use golang_fin.Std.Json.{JsonSyntax}
use golang_fin.Std.Strconv.{atoi, itoa}
use golang_fin.Errors.{ok}
use golang_fin.StorageData.{string_build}
use golang_fin.Exec.{Env}
use golang_fin.Server.{IpListResult}
use golang_fin.Server.Encode.{output_object, authorization_object, ip_list_object}
use golang_fin.Cli.{HttpClient, ClientRequest, CommandController, exchange, reported, refuse}
use golang_fin.Cli.Decode.{unmarshal_output}
use golang_fin.Cli.Commands.{confirm, subnet_arg, add_to_list}
use golang_fin.Cli.Main.{
  list_add, list_remove, clear, process_command, command_data, run_command, Turn, line, Console,
  main_loop, running, exited,
}
use golang_fin.Cli.Requests.{wanted, after, json_request}
use golang_fin.Cli.Words.{asked, wish_in, words, first_of, fields_of}
use golang_fin.Cli.Sent.{process_command-asked}
use golang_fin.Server.{post}
use golang_fin.Std.Strings.{split, trim_space, to_lower}
use golang_fin.Cli.Answers.{run_command-done, accepted}
use golang_fin.Cli.Loop.{main_loop-running, main_loop-exited, commands, Ordinary}
use golang_fin.Cli.RoundTrip.{unmarshal-print}
use golang_fin.Std.Json.Print.{print, print_to, escape, escape_char}
use golang_fin.Std.Json.Syntax.{json_syntax}
use golang_fin.Std.Json.Step.{
  scan, run as run_scanner, step, step_value, step_string, step_end, step_number,
}
use golang_fin.Std.Json.Scan.{next_number}
use golang_fin.Std.Strings.{char_at}
use golang_fin.Cli.Decode.{unmarshal_authorization, unmarshal_ip_list}

abbrev body : String
body = "{\"Text\":\"Everything is OK\",\"Code\":7}"

-- A network that answers every request with the same body
abbrev client : HttpClient (List ClientRequest)
client = record {
  parse_url = λ url. ok tt;
  do_request = λ r sent. (ok (record { body = ok body }), r ∷ sent);
}

abbrev syntax : JsonSyntax
syntax = json_syntax (λ struct s. "invalid character")

abbrev comcont : CommandController
comcont = record { address = "127.0.0.1:4000" }

abbrev start : Env (List ClientRequest)
start = record { state = []; log = [] }

abbrev same_char : Char → Char
same_char ch = ch

command_data_test :
    command_data same_char " WLADD\t 10.0.0.0/24" ≡ "" ∷ "wladd" ∷ "10.0.0.0/24" ∷ []
unfolding command_data
command_data_test = refl

-- Everything that a command computes with
commands_run : Unit {0}
unfolding process_command run_command add_to_list reported exchange confirm refuse subnet_arg
    unmarshal_output string_build atoi scan run_scanner step step_value step_string step_end
    step_number next_number
commands_run = tt

added :
    (process_command syntax client comcont same_char "WlAdd 10.0.0.0/24" start).0
    ≡ ok "Subnet successfully added to whitelist."
unfolding commands_run
added = refl

bad_count : process_command syntax client comcont same_char "bladd" start ≡ (
  ok "Error: bad argument count",
  (process_command syntax client comcont same_char "bladd" start).1,
)
unfolding commands_run
bad_count = refl

process_command-asked_example :
    (process_command syntax client comcont same_char "WlAdd 10.0.0.0/24" start).1.state
    ≡ after client
        (asked comcont.address
          (wish_in words (first_of (fields_of same_char "WlAdd 10.0.0.0/24")))
          (fields_of same_char "WlAdd 10.0.0.0/24"))
        []
process_command-asked_example =
    process_command-asked syntax client comcont same_char "WlAdd 10.0.0.0/24" start

-- The request is the one meant.
asked_test :
    asked "127.0.0.1:4000"
      (wish_in words (first_of (fields_of same_char "WlAdd 10.0.0.0/24")))
      (fields_of same_char "WlAdd 10.0.0.0/24")
    ≡ some
        (json_request post "http://127.0.0.1:4000/whitelist/" "{\"IP\":\"10.0.0.0\", \"Mask\":24}")
unfolding asked wish_in split trim_space to_lower
asked_test = refl

abbrev arg : List String
arg = "wladd" ∷ "10.0.0.0/24" ∷ []

run_command-done_example :
    (((run_command syntax client comcont (list_add "whitelist") arg start).0
        ≡ ok ("Subnet successfully added to " ⧺ "whitelist" ⧺ "."))
      ↔ (accepted client syntax (wanted comcont (list_add "whitelist") arg) [] ≡ true))
    × (((run_command syntax client comcont (list_remove "whitelist") arg start).0
          ≡ ok ("Subnet successfully removed from " ⧺ "whitelist" ⧺ "."))
        ↔ (accepted client syntax (wanted comcont (list_remove "whitelist") arg) [] ≡ true))
    × (((run_command syntax client comcont (clear "login") ("logincl" ∷ "ann" ∷ []) start).0
          ≡ ok ("login" ⧺ " bucket \"" ⧺ "ann" ⧺ "\" cleared successfully"))
        ↔ (accepted client syntax (wanted comcont (clear "login") ("logincl" ∷ "ann" ∷ [])) []
            ≡ true))
    × (((run_command syntax client comcont (clear "ip") ("logincl" ∷ "ann" ∷ []) start).0
          ≡ ok ("ip" ⧺ " bucket \"" ⧺ "ann" ⧺ "\" cleared successfully"))
        ↔ (accepted client syntax (wanted comcont (clear "ip") ("logincl" ∷ "ann" ∷ [])) [] ≡ true))
run_command-done_example =
    run_command-done syntax client comcont "whitelist" "logincl" "ann" arg start

abbrev console : Env (Console (List ClientRequest))
console = record { state = record { net = []; printed = [] }; log = [] }

abbrev turns : List Turn
turns = line "wladd 10.0.0.0/24" ∷ line "" ∷ line "Exit" ∷ []

turns-Ordinary : All Ordinary turns
turns-Ordinary = (ne_of_eq_false _ _ refl, (ne_of_eq_false _ _ refl, (ne_of_eq_false _ _ refl, tt)))

main_loop-running_example :
    ((main_loop syntax client comcont same_char turns console).0 ≡ ok running)
    × (length (main_loop syntax client comcont same_char turns console).1.state.printed
        ≡ commands turns + 0)
main_loop-running_example =
    main_loop-running syntax client comcont same_char turns console turns-Ordinary

main_loop-exited_example :
    ((main_loop syntax client comcont same_char
        (turns ++ (line "exit" ∷ line "bladd 1.0.0.0/8" ∷ []))
        console).0
      ≡ ok (exited 1))
    × ((main_loop syntax client comcont same_char
          (turns ++ (line "exit" ∷ line "bladd 1.0.0.0/8" ∷ []))
          console).1.state.net
        ≡ (main_loop syntax client comcont same_char turns console).1.state.net)
main_loop-exited_example =
    main_loop-exited syntax client comcont same_char turns (line "bladd 1.0.0.0/8" ∷ [])
      (line "exit") console turns-Ordinary (inr refl)

abbrev list_answer : IpListResult
list_answer = record {
  ip_list = some (record { ip = "10.0.0.0"; mask = pos 24; id = pos 3 } ∷ []);
  message = record { text = "Everything is OK"; code = pos 0 };
}

unmarshal-print_example :
    (unmarshal_output syntax (print (output_object (record { text = "<no>"; code = negsuc 0 })))
      ≡ ok (record { text = "<no>"; code = negsuc 0 }))
    × (unmarshal_authorization syntax
          (print (authorization_object (record { message = "ok"; passed = true })))
        ≡ ok (record { message = "ok"; passed = true }))
    × (unmarshal_ip_list syntax (print (ip_list_object list_answer)) ≡ ok list_answer)
unmarshal-print_example =
    unmarshal-print (λ struct s. "invalid character") (record { text = "<no>"; code = negsuc 0 })
      (record { message = "ok"; passed = true }) list_answer (ground arith) (ground arith)
      (ground arith)

printed_test :
    print (output_object (record { text = "<no>"; code = negsuc 0 }))
    ≡ "{\"Text\":\"\\u003cno\\u003e\",\"Code\":-1}"
unfolding print print_to escape escape_char output_object itoa char_at
printed_test = refl
