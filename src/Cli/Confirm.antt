-- ===== src/Cli/Confirm.antt =====
-- `confirm` of cmd/cli on an answer that the server has made of the result of a call.
use golang_fin.Prelude.{String, ◌≡◌, refl, ◌⧺◌, eq_false_of_ne, cons-append-ne, ◌≢◌, arith}
use golang_fin.Errors.{Result, ok, err, error_text}
use golang_fin.Exec.{Env}
use golang_fin.Server.{OutputJson}
use golang_fin.Server.Replies.{message_of}
use golang_fin.Cli.{refuse}
use golang_fin.Cli.Commands.{confirm}

-- What a change of a list prints for the result of the call that it led to
abbrev pub change_text : {A : Type 0} → String → Result A → String
change_text msg (ok a) = msg
change_text msg (err x) = "Error: " ⧺ "Internal error: " ⧺ error_text x

internal-ne : (t : String) → "Internal error: " ⧺ t ≢ "Everything is OK"
internal-ne t = cons-append-ne "I" "E" "nternal error: " "verything is OK" t "" (ground arith)

pub confirm_change :
    {N A : Type 0} (msg : String) (good : A → OutputJson)
    → ((a : A) → (good a).text ≡ "Everything is OK")
    → (r : Result A) (e : Env N)
    → ((confirm (message_of "Internal error: " good r) msg e).0 ≡ ok (change_text msg r))
      × ((confirm (message_of "Internal error: " good r) msg e).1.state ≡ e.state)
unfolding confirm refuse
confirm_change msg good h (ok a) e = rw (confirm, h a) (refl, refl)
confirm_change msg good h (err x) e =
    rw
      (eq_false_of_ne ("Internal error: " ⧺ error_text x) "Everything is OK"
        (internal-ne (error_text x)))
      (refl, refl)
