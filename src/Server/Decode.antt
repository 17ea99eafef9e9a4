-- ===== src/Server/Decode.antt =====
-- internal/server/http/handlers.go: what `json.Unmarshal` makes of the bodies of requests.
use golang_fin.Prelude.{String, Bool, true, false, none, some, if◌then◌else◌}
use golang_fin.Prelude.Int.{pos}
use golang_fin.Std.Json.{Json, JsonSyntax, names, with_field, set_string, set_int, unmarshal_value}
use golang_fin.Errors.{Result, ok, err, external}
use golang_fin.StorageData.{StorageIpData, RequestAuth}

-- `InputTag`
pub record InputTag : Type 0 where
  pub tag : String

unfoldable pub set_request : String → Json → RequestAuth → RequestAuth × Bool
unfolding names set_string
set_request key j r =
    if names key "Login"
    then with_field (set_string j r.login) (λ s. record r { login = s })
    else if names key "Password"
    then with_field (set_string j r.password) (λ s. record r { password = s })
    else if names key "IP"
    then with_field (set_string j r.ip) (λ s. record r { ip = s })
    else (r, true)

unfoldable pub set_ip_data : String → Json → StorageIpData → StorageIpData × Bool
unfolding names set_string set_int
set_ip_data key j d =
    if names key "IP"
    then with_field (set_string j d.ip) (λ s. record d { ip = s })
    else if names key "Mask"
    then with_field (set_int j d.mask) (λ z. record d { mask = z })
    else if names key "ID"
    then with_field (set_int j d.id) (λ z. record d { id = z })
    else (d, true)

unfoldable pub set_tag : String → Json → InputTag → InputTag × Bool
unfolding names set_string
set_tag key j t =
    if names key "Tag" then with_field (set_string j t.tag) (λ s. record { tag = s }) else (t, true)

module _ (syntax : JsonSyntax) where
  decoded : {A : Type 0} → String → String → A × Bool → Result A
  decoded struct body (a, true) = ok a
  decoded struct body (a, false) = err (external (syntax.error_of struct body))

  -- `json.Unmarshal(body, &x)` for an `x` of zero values, of the struct of the name.
  unfoldable pub unmarshal :
      {A : Type 0} → String → (String → Json → A → A × Bool) → A → String → Result A
  unfolding decoded unmarshal_value
  unmarshal struct set zero body = elim (syntax.scan body) [
    | none ↦ err (external (syntax.error_of struct body))
    | some j ↦ decoded struct body (unmarshal_value set j zero)
  ]

  unfoldable pub unmarshal_request : String → Result RequestAuth
  unfolding unmarshal set_request
  unmarshal_request =
      unmarshal "RequestAuth" set_request (record { login = ""; password = ""; ip = "" })

  unfoldable pub unmarshal_ip_data : String → Result StorageIpData
  unfolding unmarshal set_ip_data
  unmarshal_ip_data =
      unmarshal "StorageIPData" set_ip_data (record { ip = ""; mask = pos 0; id = pos 0 })

  unfoldable pub unmarshal_tag : String → Result InputTag
  unfolding unmarshal set_tag
  unmarshal_tag = unmarshal "InputTag" set_tag (record { tag = "" })
