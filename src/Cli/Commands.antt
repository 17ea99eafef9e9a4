-- ===== src/Cli/Commands.antt =====
-- cmd/cli/cli.go: the commands. Each returns the text that is printed.
use golang_fin.Prelude.{String, List, [], ◌∷◌, Option, none, some, ◌=~◌, ◌⧺◌, if◌then◌else◌}
use golang_fin.Prelude.Int.{pos, eqb_ℤ}
use golang_fin.Std.Json.{JsonSyntax}
use golang_fin.Std.Strconv.{itoa}
use golang_fin.Std.Strings.{split}
use golang_fin.Errors.{Result, ok, err, error_text, bad_arg_count, bad_argument}
use golang_fin.StorageData.{StorageIpData, string_build}
use golang_fin.Exec.{Exec, pure, lift, log_info, ◌>>◌}
use golang_fin.Server.{get, post, delete, OutputJson, AuthorizationRequestAnswer, IpListResult}
use golang_fin.Cli.{HttpClient, CommandController, exchange, refuse, reported}
use golang_fin.Cli.Decode.{unmarshal_output, unmarshal_authorization, unmarshal_ip_list}

abbrev pub correct_answer_text : String
correct_answer_text = "Everything is OK"

-- `strings.Split(arg[1], "/")` and the checks of both lengths
abbrev pub subnet_parts : List String → Result (String × String)
subnet_parts (ip ∷ mask ∷ []) = ok (ip, mask)
subnet_parts _ = err bad_argument

unfoldable pub subnet_arg : List String → Result (String × String)
unfolding split
subnet_arg (command ∷ subnet ∷ []) = subnet_parts (split b'/' subnet)
subnet_arg _ = err bad_arg_count

abbrev pub list_url : CommandController → String → String
list_url comcont listname = string_build ("http://" ∷ comcont.address ∷ "/" ∷ listname ∷ "/" ∷ [])

abbrev pub root_url : CommandController → String → String
root_url comcont path = string_build ("http://" ∷ comcont.address ∷ path ∷ [])

abbrev pub subnet_body : String → String → String
subnet_body ip mask = "{\"IP\":\"" ⧺ ip ⧺ "\", \"Mask\":" ⧺ mask ⧺ "}"

-- `answer.Text` decides whether a change has been made.
unfoldable pub confirm : {N : Type 0} → OutputJson → String → Exec N String
confirm answer msg =
    if answer.text =~ correct_answer_text then (do log_info msg; pure msg) else refuse answer.text

-- The loop of `allInList`
unfoldable pub list_lines : String → List StorageIpData → String
list_lines result [] = result
list_lines result (d ∷ ip_list) =
    list_lines (string_build (result ∷ d.ip ∷ "/" ∷ itoa d.mask ∷ "\n" ∷ [])) ip_list

abbrev elements : Option (List StorageIpData) → List StorageIpData
elements none = []
elements (some list) = list

unfoldable pub help : String
help =
    "\nhelp - show this message\nlong: WhitelistAdd [subnet], short: wladd [subnet] - add subnet to whitelist\nlong: Remove"

abbrev pub request_body : String → String → String → String
request_body login password ip =
    "{\n\t\t\"Login\":\"" ⧺ login ⧺ "\",\n\t\t\"Password\":\"" ⧺ password ⧺ "\",\n\t\t\"IP\":\""
    ⧺ ip ⧺ "\"}"

-- The answer is not written to the log.
unfoldable pub found_in_list : {N : Type 0} → String → IpListResult → Exec N String
found_in_list listname answer =
    if eqb_ℤ answer.message.code (pos 0)
    then pure ("Subnet found in " ⧺ listname ⧺ ":" ⧺ answer.message.text ⧺ ".")
    else refuse answer.message.text

unfoldable pub print_list : {N : Type 0} → String → IpListResult → Exec N String
print_list listname answer =
    if eqb_ℤ answer.message.code (pos 0)
    then (do
      let msg = listname ⧺ ":/n" ⧺ list_lines "" (elements answer.ip_list)
      log_info msg
      pure msg)
    else refuse answer.message.text

unfoldable pub print_verdict : {N : Type 0} → AuthorizationRequestAnswer → Exec N String
print_verdict answer = do
  let msg =
      "Is it bruteforce: "
      ⧺ (if answer.passed then "No" else "Yes")
      ⧺ ", message: "
      ⧺ answer.message
  log_info msg
  pure msg

-- The switch on the type of the bucket
unfoldable pub url_by_type : String → Result String
url_by_type type_clear =
    if type_clear =~ "login"
    then ok "/clearLogin/"
    else if type_clear =~ "ip"
    then ok "/clearIp/"
    else err bad_argument

module _ {N : Type 0} (syntax : JsonSyntax) (client : HttpClient N)
    (comcont : CommandController) where
  unfoldable pub add_to_list : List String → String → Exec N String
  add_to_list arg listname = reported (lift (subnet_arg arg)) λ (ip, mask).
      reported
        (exchange client post (list_url comcont listname) (subnet_body ip mask)
          (unmarshal_output syntax))
        λ answer. confirm answer ("Subnet successfully added to " ⧺ listname ⧺ ".")

  unfoldable pub remove_from_list : List String → String → Exec N String
  remove_from_list arg listname = reported (lift (subnet_arg arg)) λ (ip, mask).
      reported
        (exchange client delete (list_url comcont listname) (subnet_body ip mask)
          (unmarshal_output syntax))
        λ answer. confirm answer ("Subnet successfully removed from " ⧺ listname ⧺ ".")

  unfoldable pub is_in_list : List String → String → Exec N String
  is_in_list arg listname = reported (lift (subnet_arg arg)) λ (ip, mask).
      reported
        (exchange client get (list_url comcont listname) (subnet_body ip mask)
          (unmarshal_ip_list syntax))
        (found_in_list listname)

  unfoldable pub all_in_list : String → Exec N String
  all_in_list listname =
      reported
        (exchange client get (root_url comcont ("/" ⧺ listname ⧺ "/"))
          "{\"IP\":\"ALL\", \"Mask\":0}" (unmarshal_ip_list syntax))
        (print_list listname)

  unfoldable pub request : List String → Exec N String
  request (command ∷ login ∷ password ∷ ip ∷ []) =
      reported
        (exchange client get (root_url comcont "/request/") (request_body login password ip)
          (unmarshal_authorization syntax))
        print_verdict
  request _ = refuse (error_text bad_arg_count)

  unfoldable pub clear_bucket_by_tag : List String → String → Exec N String
  clear_bucket_by_tag (command ∷ tag ∷ []) type_clear =
      reported (lift (url_by_type type_clear)) λ path.
        reported
          (exchange client delete (root_url comcont path) ("{\"Tag\":\"" ⧺ tag ⧺ "\"}")
            (unmarshal_output syntax))
          λ answer. confirm answer (type_clear ⧺ " bucket \"" ⧺ tag ⧺ "\" cleared successfully")
  clear_bucket_by_tag _ type_clear = refuse (error_text bad_arg_count)
