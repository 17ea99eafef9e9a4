-- ===== src/Cli/Bodies.antt =====
-- The bodies that the client of cmd/cli puts together by hand, as the server decodes them.
use golang_fin.Prelude.{
  String, code, Bool, true, ◌&&◌, not, ltb, ◌==◌, ◌≡◌, refl, ap, ◌∙◌, none, some, List, [], ◌∷◌,
  ◌⧺◌, arith, snoc-append,
}
use package.text.Mathlib.TextLemmas.{cons-append, nil-append, append-nil}
use golang_fin.Prelude.Int.{ℤ, pos}
use golang_fin.Std.Strconv as Strconv
use golang_fin.Std.Strconv.{atoi}
use golang_fin.Std.Json.{
  object, member, no_members, text, number, unmarshal_value, set_members, set_string, set_int,
  names,
}
use golang_fin.Std.Json.Scan.{Purpose, as_value, Frame, in_object, in_string, value, at, snoc}
use golang_fin.Std.Json.Step.{step, step_value, step_string, step_end, run, result, scan}
use golang_fin.Std.Json.StringTrip.{run-append, run_plain}
use golang_fin.Std.Json.NumberTrip.{is_numeral, run_number}
use golang_fin.Std.Json.Syntax.{json_syntax}
use golang_fin.Errors.{ok}
use golang_fin.Server.Decode.{unmarshal, unmarshal_ip_data, unmarshal_request, set_ip_data}
use golang_fin.Cli.Commands.{subnet_body, request_body}

-- A text without quotation marks, backslashes and control characters
unfoldable pub is_plain : String → Bool
is_plain String.[] = true
is_plain (String.◌∷◌ ch s) =
    not (code ch == b'"') && not (code ch == 0x5c) && not (ltb (code ch) 0x20) && is_plain s

module _ (purpose : Purpose) (stack : List Frame) where
  run_plain_text :
      (t s rest : String)
      → is_plain t ≡ true
      → run (at (in_string purpose none s) stack) (t ⧺ rest)
        ≡ run (at (in_string purpose none (s ⧺ t)) stack) rest
  unfolding is_plain
  run_plain_text String.[] s rest h = rw (nil-append rest, append-nil s) refl
  run_plain_text (String.◌∷◌ ch t) s rest h = rw (cons-append ch t rest) (
      run_plain purpose stack s (t ⧺ rest) ch (ground (arith, h)) (ground (arith, h))
        (ground (arith, h))
      ∙ run_plain_text t (snoc s ch) rest (ground (arith, h))
      ∙ ap (λ u. run (at (in_string purpose none u) stack) rest) (snoc-append s ch t))

-- A plain text between quotation marks, the first of which has been read
plain_field :
    (stack : List Frame) (t rest : String)
    → is_plain t ≡ true
    → run (at (in_string as_value none "") stack) (t ⧺ rest)
      ≡ run (at (in_string as_value none t) stack) rest
plain_field stack t rest h =
    run_plain_text as_value stack t "" rest h
    ∙ ap (λ u. run (at (in_string as_value none u) stack) rest) (nil-append t)

subnet_scanned :
    (ip mask : String)
    → is_plain ip ≡ true
    → is_numeral mask ≡ true
    → scan (subnet_body ip mask)
      ≡ some (object (member "IP" (text ip) (member "Mask" (number mask) no_members)))
unfolding scan step_value step_string run step step_end
subnet_scanned ip mask p n = ap result (
    ap (step " ") (
      run-append (at value []) "{\"IP\":\"" (ip ⧺ "\", \"Mask\":" ⧺ mask ⧺ "}")
      ∙ plain_field (in_object no_members "IP" ∷ []) ip ("\", \"Mask\":" ⧺ mask ⧺ "}") p
      ∙ run-append _ "\", \"Mask\":" (mask ⧺ "}"))
    ∙ run_number (in_object (member "IP" (text ip) no_members) "Mask" ∷ []) mask "}" n refl)

request_scanned :
    (login password ip : String)
    → is_plain login ≡ true
    → is_plain password ≡ true
    → is_plain ip ≡ true
    → scan (request_body login password ip)
      ≡ some (
          object (
            member "Login"
              (text login)
              (member "Password" (text password) (member "IP" (text ip) no_members))))
unfolding scan step_value step_string run step step_end
request_scanned login password ip l p i =
    let after_password = "\",\n\t\t\"IP\":\"" ⧺ ip ⧺ "\"}" in
    let after_login = "\",\n\t\t\"Password\":\"" ⧺ password ⧺ after_password in
    ap result (
      ap (step " ") (
        run-append (at value []) "{\n\t\t\"Login\":\"" (login ⧺ after_login)
        ∙ plain_field (in_object no_members "Login" ∷ []) login after_login l
        ∙ run-append _ "\",\n\t\t\"Password\":\"" (password ⧺ after_password)
        ∙ plain_field (in_object (member "Login" (text login) no_members) "Password" ∷ []) password
            after_password p
        ∙ run-append _ "\",\n\t\t\"IP\":\"" (ip ⧺ "\"}")
        ∙ plain_field
            (in_object (member "Login" (text login) (member "Password" (text password) no_members))
                "IP"
              ∷ [])
            ip "\"}" i))

set_int-value :
    (digits : String) (z old : ℤ)
    → atoi digits ≡ Strconv.value z
    → set_int (number digits) old ≡ (z, true)
unfolding set_int
set_int-value digits z old q = rw (set_int, q)

entry_decoded :
    (ip mask : String) (z : ℤ)
    → atoi mask ≡ Strconv.value z
    → unmarshal_value set_ip_data
        (object (member "IP" (text ip) (member "Mask" (number mask) no_members)))
        (record { ip = ""; mask = pos 0; id = pos 0 })
      ≡ (record { ip = ip; mask = z; id = pos 0 }, true)
unfolding unmarshal_value set_ip_data set_members names set_string
entry_decoded ip mask z q = rw (set_int-value mask z (pos 0) q)

module _ (error_of : String → String → String) where
  -- The server decodes the bodies of the client to what the client means: an entry of a list and an
  -- attempt, if the texts have no quotation marks, backslashes and control characters, and the mask is
  -- written as a number of JSON that `Atoi` reads.
  pub unmarshal-body :
      (login password ip mask : String) (z : ℤ)
      → is_plain login ≡ true
      → is_plain password ≡ true
      → is_plain ip ≡ true
      → is_numeral mask ≡ true
      → atoi mask ≡ Strconv.value z
      → (unmarshal_ip_data (json_syntax error_of) (subnet_body ip mask)
          ≡ ok (record { ip = ip; mask = z; id = pos 0 }))
        × (unmarshal_request (json_syntax error_of) (request_body login password ip)
            ≡ ok (record { login = login; password = password; ip = ip }))
  unfolding unmarshal_ip_data unmarshal_request unmarshal
  unmarshal-body login password ip mask z l p i n q = (
    rw (unmarshal, subnet_scanned ip mask i n, entry_decoded ip mask z q) refl,
    rw (unmarshal, request_scanned login password ip l p i) refl,
  )
