-- ===== src/Cli/Sent.antt =====
-- cmd/cli/cli.go: the switch on the command sends what the table of the words has for it.
use golang_fin.Prelude.{
  String, Char, List, [], ◌∷◌, ◌⧺◌, ◌≡◌, refl, ◌∙◌, ap, if◌then◌else◌, Bool, true, false,
}
use text.Mathlib.TextLemmas.{append_assoc}
use golang_fin.Std.Strings.{split}
use golang_fin.Std.Json.{JsonSyntax}
use golang_fin.Errors.{ok}
use golang_fin.StorageData.{string_build}
use golang_fin.Exec.{Env}
use golang_fin.Server.{HttpMethod, get, post, delete}
use golang_fin.Cli.{HttpClient, CommandController}
use golang_fin.Cli.Commands.{subnet_arg, subnet_parts, url_by_type, list_url, root_url}
use golang_fin.Cli.Connected.{list_url-root}
use golang_fin.Cli.Main.{
  process_command, command_of, command_data, Command, show_help, list_add, list_remove, list_is_in,
  list_all_in, clear, check, unsupported,
}
use golang_fin.Cli.Requests.{wanted, after, subnet_request, process_command-wanted}
use golang_fin.Cli.Words.{
  Wish, nothing, one_network, whole_list, one_bucket, verdict, words, wish_in, network_body,
  with_body, asked, fields_of, first_of,
}

root_url-text :
    (comcont : CommandController) (path : String)
    → root_url comcont path ≡ "http://" ⧺ comcont.address ⧺ path
unfolding string_build
root_url-text comcont path = append_assoc "http://" comcont.address path

module _ (comcont : CommandController) where
  parts_sent :
      (method : HttpMethod) (url : String) (parts : List String)
      → subnet_request method url (subnet_parts parts) ≡ with_body method url (network_body parts)
  parts_sent method url [] = refl
  parts_sent method url (a ∷ []) = refl
  parts_sent method url (a ∷ b ∷ []) = refl
  parts_sent method url (a ∷ b ∷ c ∷ parts) = refl

  network_sent :
      (method : HttpMethod) (listname : String) (fields : List String)
      → subnet_request method (list_url comcont listname) (subnet_arg fields)
        ≡ asked comcont.address (one_network method ("/" ⧺ listname ⧺ "/")) fields
  unfolding subnet_arg asked
  network_sent method listname [] = refl
  network_sent method listname (a ∷ []) = refl
  network_sent method listname (a ∷ subnet ∷ []) =
      parts_sent method (list_url comcont listname) (split b'/' subnet)
      ∙ ap (λ url. with_body method url (network_body (split b'/' subnet)))
          (list_url-root comcont listname ∙ root_url-text comcont ("/" ⧺ listname ⧺ "/"))
  network_sent method listname (a ∷ b ∷ c ∷ fields) = refl

  bucket_sent :
      (kind path : String)
      → url_by_type kind ≡ ok path
      → (fields : List String)
      → wanted comcont (clear kind) fields ≡ asked comcont.address (one_bucket path) fields
  unfolding wanted asked
  bucket_sent kind path known [] = refl
  bucket_sent kind path known (a ∷ []) = refl
  bucket_sent kind path known (a ∷ tag ∷ []) = rw (known, root_url-text comcont path) refl
  bucket_sent kind path known (a ∷ b ∷ c ∷ fields) = refl

  rated_sent :
      (fields : List String) → wanted comcont check fields ≡ asked comcont.address verdict fields
  unfolding wanted asked
  rated_sent [] = refl
  rated_sent (a ∷ []) = refl
  rated_sent (a ∷ b ∷ []) = refl
  rated_sent (a ∷ b ∷ c ∷ []) = refl
  rated_sent (a ∷ b ∷ c ∷ d ∷ []) = rw (root_url-text comcont "/request/") refl
  rated_sent (a ∷ b ∷ c ∷ d ∷ f ∷ fields) = refl

  whole_sent :
      (listname : String) (fields : List String)
      → wanted comcont (list_all_in listname) fields
        ≡ asked comcont.address (whole_list ("/" ⧺ listname ⧺ "/")) fields
  unfolding wanted asked
  whole_sent listname fields = rw (root_url-text comcont ("/" ⧺ listname ⧺ "/")) refl

  -- A command and a wish that send the same
  record Agree (fields : List String) (c : Command) (w : Wish) : Type 0 where
    same : wanted comcont c fields ≡ asked comcont.address w fields

  both_branches :
      (fields : List String) (test : Bool) (c c' : Command) (w w' : Wish)
      → Agree fields c w
      → Agree fields c' w'
      → Agree fields (if test then c else c') (if test then w else w')
  both_branches fields true c c' w w' h h' = h
  both_branches fields false c c' w w' h h' = h'

  same_on :
      (fields : List String) (c : Command) (w : Wish)
      → wanted comcont c fields ≡ asked comcont.address w fields
      → Agree fields c w
  same_on fields c w h = record { same = h }

  nothing_sent :
      (fields : List String) → Agree fields show_help nothing × Agree fields unsupported nothing
  unfolding wanted asked
  nothing_sent fields = (record { same = refl }, record { same = refl })

  list_Agree :
      (listname : String) (fields : List String)
      → Agree fields (list_add listname) (one_network post ("/" ⧺ listname ⧺ "/"))
        × Agree fields (list_remove listname) (one_network delete ("/" ⧺ listname ⧺ "/"))
        × Agree fields (list_is_in listname) (one_network get ("/" ⧺ listname ⧺ "/"))
        × Agree fields (list_all_in listname) (whole_list ("/" ⧺ listname ⧺ "/"))
  unfolding wanted
  list_Agree listname fields = (
    record { same = network_sent post listname fields },
    record { same = network_sent delete listname fields },
    record { same = network_sent get listname fields },
    record { same = whole_sent listname fields },
  )

  -- The switch on the word, and the table
  words-Agree :
      (fields : List String) (name : String) → Agree fields (command_of name) (wish_in words name)
  unfolding command_of wish_in url_by_type
  words-Agree fields name =
      let (w1, w2, w3, w4) = list_Agree "whitelist" fields in
      let (b1, b2, b3, b4) = list_Agree "blacklist" fields in
      let login =
        same_on fields (clear "login") _ (bucket_sent "login" "/clearLogin/" refl fields) in
      let address = same_on fields (clear "ip") _ (bucket_sent "ip" "/clearIp/" refl fields) in
      let rated = same_on fields check _ (rated_sent fields) in
      let (helped, unknown) = nothing_sent fields in
      both_branches fields _ _ _ _ _ helped (
        both_branches fields _ _ _ _ _ w1 (
          both_branches fields _ _ _ _ _ w2 (
            both_branches fields _ _ _ _ _ w3 (
              both_branches fields _ _ _ _ _ w4 (
                both_branches fields _ _ _ _ _ b1 (
                  both_branches fields _ _ _ _ _ b2 (
                    both_branches fields _ _ _ _ _ b3 (
                      both_branches fields _ _ _ _ _ b4 (
                        both_branches fields _ _ _ _ _ login (
                          both_branches fields _ _ _ _ _ address
                            (both_branches fields _ _ _ _ _ rated (unknown))))))))))))

module _ {N : Type 0} (syntax : JsonSyntax) (client : HttpClient N)
    (comcont : CommandController) where
  -- A line sends the one request that the table has for its first word, made of its other fields, or
  -- none if the word is not in the table, the number of fields is another, or the address of the
  -- request cannot be parsed; nothing else happens on the network.
  pub process_command-asked :
      (beyond : Char → Char) (raw_command : String) (e : Env N)
      → (process_command syntax client comcont beyond raw_command e).1.state
        ≡ after client
            (asked comcont.address
              (wish_in words (first_of (fields_of beyond raw_command)))
              (fields_of beyond raw_command))
            e.state
  unfolding command_data
  process_command-asked beyond raw_command e =
      process_command-wanted syntax client comcont beyond raw_command e
      ∙ ap (λ r. after client r e.state)
          (words-Agree comcont (fields_of beyond raw_command)
            (first_of (fields_of beyond raw_command))).same
