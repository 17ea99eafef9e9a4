-- ===== src/Cli/Decode.antt =====
-- cmd/cli/cli.go: what `json.Unmarshal` makes of the answers of the server.
use golang_fin.Prelude.{String, Bool, true, false, none, if◌then◌else◌}
use golang_fin.Prelude.Int.{pos}
use golang_fin.Std.Json.{
  Json, JsonSyntax, names, with_field, set_string, set_int, set_bool, set_slice, unmarshal_value,
}
use golang_fin.Errors.{Result}
use golang_fin.StorageData.{StorageIpData}
use golang_fin.Server.{OutputJson, AuthorizationRequestAnswer, IpListResult}
use golang_fin.Server.Decode.{unmarshal, set_ip_data}

unfoldable pub set_output : String → Json → OutputJson → OutputJson × Bool
unfolding names set_string set_int
set_output key j o =
    if names key "Text"
    then with_field (set_string j o.text) (λ s. record o { text = s })
    else if names key "Code"
    then with_field (set_int j o.code) (λ z. record o { code = z })
    else (o, true)

unfoldable pub set_authorization :
    String → Json → AuthorizationRequestAnswer → AuthorizationRequestAnswer × Bool
unfolding names set_string set_bool
set_authorization key j a =
    if names key "Message"
    then with_field (set_string j a.message) (λ s. record a { message = s })
    else if names key "OK"
    then with_field (set_bool j a.passed) (λ b. record a { passed = b })
    else (a, true)

abbrev pub zero_output : OutputJson
zero_output = record { text = ""; code = pos 0 }

abbrev pub zero_ip_data : StorageIpData
zero_ip_data = record { ip = ""; mask = pos 0; id = pos 0 }

unfoldable pub set_ip_list : String → Json → IpListResult → IpListResult × Bool
unfolding names set_slice unmarshal_value set_ip_data set_output
set_ip_list key j l =
    if names key "IPList"
    then with_field (set_slice set_ip_data zero_ip_data j l.ip_list)
        (λ list. record l { ip_list = list })
    else if names key "Message"
    then with_field (unmarshal_value set_output j l.message) (λ o. record l { message = o })
    else (l, true)

module _ (syntax : JsonSyntax) where
  unfoldable pub unmarshal_output : String → Result OutputJson
  unfolding unmarshal set_output
  unmarshal_output = unmarshal syntax "outputJSON" set_output zero_output

  unfoldable pub unmarshal_authorization : String → Result AuthorizationRequestAnswer
  unfolding unmarshal set_authorization
  unmarshal_authorization =
      unmarshal syntax "AuthorizationRequestAnswer" set_authorization
        (record { message = ""; passed = false })

  unfoldable pub unmarshal_ip_list : String → Result IpListResult
  unfolding unmarshal set_ip_list
  unmarshal_ip_list =
      unmarshal syntax "IPListResult" set_ip_list (record { ip_list = none; message = zero_output })
