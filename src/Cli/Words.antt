-- ===== src/Cli/Words.antt =====
-- cmd/cli/cli.go: the words of the commands as a table, and what a line sends to the server.
use golang_fin.Prelude.{
  String, Char, List, [], ◌∷◌, Option, none, some, ◌⧺◌, ◌=~◌, ◌||◌, map, if◌then◌else◌, Bool, false,
}
use golang_fin.Std.Strings.{split, trim_space, to_lower}
use golang_fin.Server.{HttpMethod, get, post, delete}
use golang_fin.Cli.{ClientRequest}
use golang_fin.Cli.Requests.{json_request}

-- What a word asks for: nothing of the server, a request about one network, one about a whole list,
-- the clearing of a bucket, or a verdict, each with its method and its path.
pub data Wish : Type 0 where
  nothing : Wish
  one_network : HttpMethod → String → Wish
  whole_list one_bucket : String → Wish
  verdict : Wish

-- The words of each command
abbrev pub words : List (List String × Wish)
words =
    ("help" ∷ [], nothing)
    ∷ ("whitelistadd" ∷ "wladd" ∷ [], one_network post "/whitelist/")
    ∷ ("whitelistremove" ∷ "wlrm" ∷ [], one_network delete "/whitelist/")
    ∷ ("whitelistisin" ∷ "wlisin" ∷ [], one_network get "/whitelist/")
    ∷ ("whitelistallin" ∷ "wlallin" ∷ [], whole_list "/whitelist/")
    ∷ ("blacklistadd" ∷ "bladd" ∷ [], one_network post "/blacklist/")
    ∷ ("blacklistremove" ∷ "blrm" ∷ [], one_network delete "/blacklist/")
    ∷ ("blacklistisin" ∷ "blisin" ∷ [], one_network get "/blacklist/")
    ∷ ("blacklistallin" ∷ "blallin" ∷ [], whole_list "/blacklist/")
    ∷ ("clearbucketforlogin" ∷ "logincl" ∷ [], one_bucket "/clearLogin/")
    ∷ ("clearbucketforip" ∷ "ipcl" ∷ [], one_bucket "/clearIp/")
    ∷ ("request" ∷ [], verdict)
    ∷ []

unfoldable pub is_one_of : String → List String → Bool
is_one_of name [] = false
is_one_of name (word ∷ []) = name =~ word
is_one_of name (word ∷ next ∷ rest) = name =~ word || is_one_of name (next ∷ rest)

unfoldable pub wish_in : List (List String × Wish) → String → Wish
unfolding is_one_of
wish_in [] name = nothing
wish_in ((known, wish) ∷ rest) name =
    let later = wish_in rest name in if is_one_of name known then wish else later

-- The two parts of `10.0.0.0/24`, which stand in the body of the request
abbrev pub network_body : List String → Option String
network_body (ip ∷ mask ∷ []) = some ("{\"IP\":\"" ⧺ ip ⧺ "\", \"Mask\":" ⧺ mask ⧺ "}")
network_body _ = none

abbrev pub with_body : HttpMethod → String → Option String → Option ClientRequest
with_body method url none = none
with_body method url (some body) = some (json_request method url body)

-- The request for a wish, to the address of the server: it depends on how many fields the line has.
unfoldable pub asked : String → Wish → List String → Option ClientRequest
asked address (one_network method path) (name ∷ subnet ∷ []) =
    with_body method ("http://" ⧺ address ⧺ path) (network_body (split b'/' subnet))
asked address (whole_list path) fields =
    some (json_request get ("http://" ⧺ address ⧺ path) "{\"IP\":\"ALL\", \"Mask\":0}")
asked address (one_bucket path) (name ∷ tag ∷ []) =
    some (json_request delete ("http://" ⧺ address ⧺ path) ("{\"Tag\":\"" ⧺ tag ⧺ "\"}"))
asked address verdict (name ∷ login ∷ password ∷ ip ∷ []) = some (
    json_request get ("http://" ⧺ address ⧺ "/request/") (
      "{\n\t\t\"Login\":\"" ⧺ login ⧺ "\",\n\t\t\"Password\":\"" ⧺ password ⧺ "\",\n\t\t\"IP\":\""
      ⧺ ip ⧺ "\"}"))
asked address wish fields = none

-- The fields of a line, without the blanks around them and in small letters
abbrev pub fields_of : (Char → Char) → String → List String
fields_of beyond line = map (λ field. to_lower beyond (trim_space field)) (split b' ' line)

abbrev pub first_of : List String → String
first_of [] = ""
first_of (name ∷ fields) = name
