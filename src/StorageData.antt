-- ===== src/StorageData.antt =====
-- internal/storage/storageData/storageData.go and helpers/helper.go: the data that all parts share.
use golang_fin.Prelude.{String, List, [], ◌∷◌, ◌⧺◌, Bool}
use golang_fin.Prelude.Int.{ℤ}
use golang_fin.Std.Strconv.{itoa}

-- `helpers.StringBuild`: the loop over the builder.
build_from : String → List String → String
build_from built [] = built
build_from built (str ∷ input) = build_from (built ⧺ str) input

unfoldable pub string_build : List String → String
unfolding build_from
string_build input = build_from "" input

abbrev pub white_list_name : String
white_list_name = "whitelist"

abbrev pub black_list_name : String
black_list_name = "blacklist"

pub record StorageIpData : Type 0 where
  pub ip : String
  pub mask : ℤ
  pub id : ℤ

pub record RequestAuth : Type 0 where
  pub login : String
  pub password : String
  pub ip : String

-- `(*StorageIPData).String`
unfoldable pub ip_data_string : StorageIpData → String
unfolding string_build itoa
ip_data_string d = string_build ("[ID: " ∷ itoa d.id ∷ ", IP: " ∷ d.ip ∷ "]" ∷ [])

-- `(*RequestAuth).String`
unfoldable pub request_string : RequestAuth → String
unfolding string_build
request_string r =
    string_build ("[Login: " ∷ r.login ∷ ", Password: " ∷ r.password ∷ ", IP: " ∷ r.ip ∷ "]" ∷ [])

-- What the application reads of `Config`.
pub record Limits : Type 0 where
  pub limit_login : ℤ
  pub limit_password : ℤ
  pub limit_ip : ℤ

-- A context as a call finds it: `<-ctx.Done()` is ready or not.
pub record Context : Type 0 where
  pub done : Bool
