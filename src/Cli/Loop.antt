-- ===== src/Cli/Loop.antt =====
-- cmd/cli/main.go: the loop over the lines.
use golang_fin.Prelude.{
  ℕ, suc, ◌+◌, String, Char, List, [], ◌∷◌, ◌++◌, ◌≡◌, refl, ◌≢◌, ◌=~◌, eq_false_of_ne, arith, All,
  length, if◌then◌else◌, Bool, true, false, ◌⊎◌, inl, inr, Bool-cases, ◌⧺◌,
}
use golang_fin.Std.Json.{JsonSyntax}
use golang_fin.Errors.{ok, error_text}
use golang_fin.Exec.{Exec, Env, Result-cases, lift, ◌>>=◌}
use golang_fin.Server.{OutputJson, IpListResult}
use golang_fin.Cli.{HttpClient, CommandController, reported, refuse}
use golang_fin.Cli.Steps.{reported-ok, reported-err}
use golang_fin.Cli.Commands.{
  confirm, found_in_list, print_list, print_verdict, add_to_list, remove_from_list, is_in_list,
  all_in_list, request, clear_bucket_by_tag, subnet_arg,
}
use golang_fin.Cli.Main.{
  Command, show_help, list_add, list_remove, list_is_in, list_all_in, clear, check, unsupported,
  run_command, process_command, Turn, interrupted, line, Console, running, exited, turn,
  unless_exited, main_loop,
}

-- A step that always gives a text
abbrev Speaks : {N : Type 0} → Exec N String → Type 0
Speaks {N} m = (e : Env N) → (text : String) × ((m e).0 ≡ ok text)

module _ {N : Type 0} where
  reported-Speaks :
      {A : Type 0} (m : Exec N A) (next : A → Exec N String)
      → ((a : A) → Speaks (next a))
      → Speaks (reported m next)
  unfolding refuse
  reported-Speaks m next h e = elim (Result-cases (m e).0) [
    | inl (a, q) ↦ rw (reported-ok m next e a q) (h a (m e).1)
    | inr (x, q) ↦ rw (reported-err m next e x q) ("Error: " ⧺ error_text x, refl)
  ]

  if-Speaks : (b : Bool) (m n : Exec N String) → Speaks m → Speaks n → Speaks (if b then m else n)
  if-Speaks true m n h k = h
  if-Speaks false m n h k = k

  confirm-Speaks : (msg : String) (answer : OutputJson) → Speaks {N = N} (confirm answer msg)
  unfolding confirm refuse
  confirm-Speaks msg answer = if-Speaks _ _ _ (λ e. (msg, refl)) (λ e. (_, refl))

  found-Speaks :
      (listname : String) (answer : IpListResult) → Speaks {N = N} (found_in_list listname answer)
  unfolding found_in_list refuse
  found-Speaks listname answer = if-Speaks _ _ _ (λ e. (_, refl)) (λ e. (_, refl))

  list-Speaks :
      (listname : String) (answer : IpListResult) → Speaks {N = N} (print_list listname answer)
  unfolding print_list refuse
  list-Speaks listname answer = if-Speaks _ _ _ (λ e. (_, refl)) (λ e. (_, refl))

  subnet-Speaks :
      (arg : List String) (next : String × String → Exec N String)
      → ((parts : String × String) → Speaks (next parts))
      → Speaks (reported (lift (subnet_arg arg)) next)
  subnet-Speaks arg next = reported-Speaks (lift (subnet_arg arg)) next

-- A turn that does not end the loop
abbrev pub Ordinary : Turn → Type 0
Ordinary interrupted = ⊥
Ordinary (line raw_command) = raw_command ≢ "exit"

-- The lines that are commands
abbrev pub commands : List Turn → ℕ
commands [] = 0
commands (interrupted ∷ turns) = commands turns
commands (line raw_command ∷ turns) =
    if raw_command =~ "" then commands turns else suc (commands turns)

module _ {N : Type 0} (syntax : JsonSyntax) (client : HttpClient N)
    (comcont : CommandController) where
  request-Speaks : (arg : List String) → Speaks (request syntax client comcont arg)
  unfolding request refuse print_verdict
  request-Speaks (command ∷ login ∷ password ∷ ip ∷ []) =
      reported-Speaks _ print_verdict (λ answer e. (_, refl))
  request-Speaks [] = λ e. (_, refl)
  request-Speaks (a ∷ []) = λ e. (_, refl)
  request-Speaks (a ∷ b ∷ []) = λ e. (_, refl)
  request-Speaks (a ∷ b ∷ c ∷ []) = λ e. (_, refl)
  request-Speaks (a ∷ b ∷ c ∷ d ∷ f ∷ l) = λ e. (_, refl)

  clear-Speaks :
      (type_clear : String) (arg : List String)
      → Speaks (clear_bucket_by_tag syntax client comcont arg type_clear)
  unfolding clear_bucket_by_tag refuse
  clear-Speaks type_clear (command ∷ tag ∷ []) =
      reported-Speaks _ _ (λ path. reported-Speaks _ _ (confirm-Speaks _))
  clear-Speaks type_clear [] = λ e. (_, refl)
  clear-Speaks type_clear (a ∷ []) = λ e. (_, refl)
  clear-Speaks type_clear (a ∷ b ∷ c ∷ l) = λ e. (_, refl)

  run_command-Speaks :
      (c : Command) (arg : List String) → Speaks (run_command syntax client comcont c arg)
  unfolding run_command add_to_list remove_from_list is_in_list all_in_list
  run_command-Speaks show_help arg = λ e. (_, refl)
  run_command-Speaks (list_add listname) arg =
      subnet-Speaks arg _ (λ parts. reported-Speaks _ _ (confirm-Speaks _))
  run_command-Speaks (list_remove listname) arg =
      subnet-Speaks arg _ (λ parts. reported-Speaks _ _ (confirm-Speaks _))
  run_command-Speaks (list_is_in listname) arg =
      subnet-Speaks arg _ (λ parts. reported-Speaks _ _ (found-Speaks listname))
  run_command-Speaks (list_all_in listname) arg = reported-Speaks _ _ (list-Speaks listname)
  run_command-Speaks (clear type_clear) arg = clear-Speaks type_clear arg
  run_command-Speaks check arg = request-Speaks arg
  run_command-Speaks unsupported arg = λ e. (_, refl)

  process_command-Speaks :
      (beyond : Char → Char) (raw_command : String)
      → Speaks (process_command syntax client comcont beyond raw_command)
  unfolding process_command
  process_command-Speaks beyond raw_command e = run_command-Speaks _ _ _

  module _ (beyond : Char → Char) where
    turn-running :
        (raw_command : String) (e : Env (Console N))
        → raw_command ≢ "exit"
        → ((turn syntax client comcont beyond (line raw_command) e).0 ≡ ok running)
          × (length (turn syntax client comcont beyond (line raw_command) e).1.state.printed
              ≡ (if raw_command =~ "" then 0 else 1) + length e.state.printed)
    unfolding turn
    turn-running raw_command e ordinary = elim (Bool-cases (raw_command =~ "")) [
      | inl q ↦ rw (q) (refl, omega arith)
      | inr q ↦
          let (text, said) =
            process_command-Speaks beyond raw_command
              (record { state = e.state.net; log = e.log }) in
          rw (q, eq_false_of_ne raw_command "exit" ordinary, said) (refl, omega arith)
    ]

    -- Turns that do not end the loop: it goes on, and prints one text for each command.
    pub main_loop-running :
        (turns : List Turn) (e : Env (Console N))
        → All Ordinary turns
        → ((main_loop syntax client comcont beyond turns e).0 ≡ ok running)
          × (length (main_loop syntax client comcont beyond turns e).1.state.printed
              ≡ commands turns + length e.state.printed)
    unfolding main_loop unless_exited
    main_loop-running [] e h = (refl, omega arith)
    main_loop-running (interrupted ∷ turns) e (h, hs) = absurd h
    main_loop-running (line raw_command ∷ turns) e (h, hs) =
        let (on, printed) = turn-running raw_command e h in
        let (still, count) =
          main_loop-running turns (turn syntax client comcont beyond (line raw_command) e).1 hs in
        rw (on) (still, ground (arith, printed, count))

    main_loop-append :
        (turns more : List Turn) (e : Env (Console N))
        → main_loop syntax client comcont beyond (turns ++ more) e
          ≡ (main_loop syntax client comcont beyond turns
                >>= unless_exited (main_loop syntax client comcont beyond more))
              e
    unfolding main_loop unless_exited
    main_loop-append [] more e = refl
    main_loop-append (t ∷ turns) more e =
        elim (Result-cases (turn syntax client comcont beyond t e).0) [
          | inr (x, q) ↦ rw (q) refl
          | inl (exited status, q) ↦ rw (q) refl
          | inl (running, q) ↦ rw (q) (main_loop-append turns more _)
        ]

    -- The line "exit" and the end of the context end the program with status 1 after the turns before
    -- them; what follows them is not sent.
    pub main_loop-exited :
        (turns more : List Turn) (stop : Turn) (e : Env (Console N))
        → All Ordinary turns
        → (stop ≡ interrupted) ⊎ (stop ≡ line "exit")
        → ((main_loop syntax client comcont beyond (turns ++ (stop ∷ more)) e).0 ≡ ok (exited 1))
          × ((main_loop syntax client comcont beyond (turns ++ (stop ∷ more)) e).1.state.net
              ≡ (main_loop syntax client comcont beyond turns e).1.state.net)
    unfolding main_loop unless_exited turn
    main_loop-exited turns more stop e h (inl q) =
        rw (main_loop-append turns (stop ∷ more) e, (main_loop-running turns e h).0, q) (refl, refl)
    main_loop-exited turns more stop e h (inr q) =
        rw (main_loop-append turns (stop ∷ more) e, (main_loop-running turns e h).0, q) (refl, refl)
