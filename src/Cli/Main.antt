-- ===== src/Cli/Main.antt =====
-- cmd/cli/cli.go and cmd/cli/main.go: the switch on a command, the first request to the server, and
-- the loop over the lines of the input.
use golang_fin.Prelude.{ℕ, String, Char, ◌||◌, List, [], ◌∷◌, ◌=~◌, ◌⧺◌, if◌then◌else◌, map}
use golang_fin.Std.Json.{JsonSyntax}
use golang_fin.Std.Strings.{split, trim_space, to_lower}
use golang_fin.Errors.{ok, error_text, unsupported_command, anti_bf_not_available}
use golang_fin.StorageData.{string_build}
use golang_fin.Exec.{Exec, pure, fail, catch, zoom, log_info, log_fail, lift, ◌>>=◌, ◌>>◌}
use golang_fin.Server.{get}
use golang_fin.Cli.{HttpClient, CommandController, new_request, do_request}
use golang_fin.Cli.Commands.{
  help, add_to_list, remove_from_list, is_in_list, all_in_list, request, clear_bucket_by_tag,
}

-- The cases of the switch
pub data Command : Type 0 where
  show_help : Command
  list_add list_remove list_is_in list_all_in : String → Command
  clear : String → Command
  check : Command
  unsupported : Command

unfoldable pub command_of : String → Command
command_of name =
    if name =~ "help"
    then show_help
    else if name =~ "whitelistadd" || name =~ "wladd"
    then list_add "whitelist"
    else if name =~ "whitelistremove" || name =~ "wlrm"
    then list_remove "whitelist"
    else if name =~ "whitelistisin" || name =~ "wlisin"
    then list_is_in "whitelist"
    else if name =~ "whitelistallin" || name =~ "wlallin"
    then list_all_in "whitelist"
    else if name =~ "blacklistadd" || name =~ "bladd"
    then list_add "blacklist"
    else if name =~ "blacklistremove" || name =~ "blrm"
    then list_remove "blacklist"
    else if name =~ "blacklistisin" || name =~ "blisin"
    then list_is_in "blacklist"
    else if name =~ "blacklistallin" || name =~ "blallin"
    then list_all_in "blacklist"
    else if name =~ "clearbucketforlogin" || name =~ "logincl"
    then clear "login"
    else if name =~ "clearbucketforip" || name =~ "ipcl"
    then clear "ip"
    else if name =~ "request"
    then check
    else unsupported

-- `commandData[0]`; `strings.Split` gives at least one field.
abbrev pub command_name : List String → String
command_name [] = ""
command_name (name ∷ arg) = name

-- The fields of a command, in small letters
unfoldable pub command_data : (Char → Char) → String → List String
unfolding split trim_space to_lower
command_data beyond raw_command =
    map (λ field. to_lower beyond (trim_space field)) (split b' ' raw_command)

module _ {N : Type 0} (syntax : JsonSyntax) (client : HttpClient N)
    (comcont : CommandController) where
  unfoldable pub run_command : Command → List String → Exec N String
  unfolding error_text
  run_command show_help arg = pure help
  run_command (list_add listname) arg = add_to_list syntax client comcont arg listname
  run_command (list_remove listname) arg = remove_from_list syntax client comcont arg listname
  run_command (list_is_in listname) arg = is_in_list syntax client comcont arg listname
  run_command (list_all_in listname) arg = all_in_list syntax client comcont listname
  run_command (clear type_clear) arg = clear_bucket_by_tag syntax client comcont arg type_clear
  run_command check arg = request syntax client comcont arg
  run_command unsupported arg = do
    log_info ("Error: " ⧺ error_text unsupported_command)
    pure ("Error: " ⧺ error_text unsupported_command)

  -- `processCommand`
  unfoldable pub process_command : (Char → Char) → String → Exec N String
  unfolding run_command command_of command_data
  process_command beyond raw_command = do
    log_info ("Command: " ⧺ raw_command)
    let arg = command_data beyond raw_command
    run_command (command_of (command_name arg)) arg

-- `pingAntiBF`: the header of its request stays empty.
unfoldable pub ping_anti_bf : {N : Type 0} → HttpClient N → String → Exec N Unit
ping_anti_bf client address = do
  req ← new_request client get (string_build ("http://" ∷ address ∷ "/" ∷ [])) ""
  resp ← do_request client req
  resp_body ← lift resp.body
  if resp_body =~ "pong" then pure tt else fail anti_bf_not_available

-- One turn of the loop: the context is done, or the scanner gives a line. At the end of the input it
-- gives the empty one.
pub data Turn : Type 0 where
  interrupted : Turn
  line : String → Turn

-- The network and what has been printed, the newest first.
pub record Console (N : Type 0) : Type 0 where
  pub net : N
  pub printed : List String

-- `fmt.Println`
abbrev pub print_line : {N : Type 0} → String → Exec (Console N) Unit
print_line text e =
    let c = e.state in
    (ok tt, record e { state = record { net = c.net; printed = text ∷ c.printed } })

-- Whether the loop goes on, or the program has left by `os.Exit` with a status.
pub data Outcome : Type 0 where
  running : Outcome
  exited : ℕ → Outcome

-- `os.Exit` ends the loop.
unfoldable pub unless_exited :
    {N : Type 0} → Exec (Console N) Outcome → Outcome → Exec (Console N) Outcome
unless_exited next running = next
unless_exited next (exited status) = pure (exited status)

module _ {N : Type 0} (syntax : JsonSyntax) (client : HttpClient N) (comcont : CommandController)
    (beyond : Char → Char) where
  abbrev run_line : String → Exec (Console N) String
  run_line raw_command =
      zoom (λ c. c.net) (λ c n. record { net = n; printed = c.printed })
        (process_command syntax client comcont beyond raw_command)

  unfoldable pub turn : Turn → Exec (Console N) Outcome
  turn interrupted = do log_info "antibf-cli is shutting down"; pure (exited 1)
  turn (line raw_command) =
      if raw_command =~ ""
      then pure running
      else if raw_command =~ "exit"
      then (do
        print_line "Shutting down by user request"
        log_info "antibf-cli is shutting down"
        pure (exited 1))
      else (do output ← run_line raw_command; print_line output; pure running)

  -- The loop, over the turns that there are
  unfoldable pub main_loop : List Turn → Exec (Console N) Outcome
  unfolding unless_exited
  main_loop [] = pure running
  main_loop (t ∷ turns) = turn t >>= unless_exited (main_loop turns)

  -- The program from its first request on; an error of that is a panic.
  unfoldable pub run : List Turn → Exec (Console N) Outcome
  unfolding main_loop
  run turns = do
    catch
        (zoom (λ c. c.net) (λ c n. record { net = n; printed = c.printed })
          (ping_anti_bf client comcont.address))
        (λ x. log_fail (error_text x) x)
    log_info ("antibfAddress:" ⧺ comcont.address)
    log_info "antibf-cli is up and running"
    print_line "Welcome to Antibf-cli!"
    print_line "Use \"help\" command to see all available commands, use \"exit\" to exit. :-)"
    main_loop turns
