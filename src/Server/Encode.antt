-- ===== src/Server/Encode.antt =====
-- internal/server/http/handlers.go: what `json.Marshal` makes of the structs of the answers.
use golang_fin.Prelude.{Option, none, some, List, [], ◌∷◌}
use golang_fin.Std.Json.{
  Json, Items, null, boolean, number, text, array, object, no_items, item, no_members, member,
}
use golang_fin.Std.Strconv.{itoa}
use golang_fin.StorageData.{StorageIpData}
use golang_fin.Server.{OutputJson, AuthorizationRequestAnswer, IpListResult}

unfoldable pub output_object : OutputJson → Json
output_object o =
    object (member "Text" (text o.text) (member "Code" (number (itoa o.code)) no_members))

unfoldable pub authorization_object : AuthorizationRequestAnswer → Json
authorization_object a =
    object (member "Message" (text a.message) (member "OK" (boolean a.passed) no_members))

unfoldable pub ip_data_object : StorageIpData → Json
ip_data_object d = object (
    member "IP" (text d.ip)
      (member "Mask" (number (itoa d.mask)) (member "ID" (number (itoa d.id)) no_members)))

unfoldable pub ip_data_items : List StorageIpData → Items
ip_data_items [] = no_items
ip_data_items (d ∷ list) = item (ip_data_object d) (ip_data_items list)

abbrev pub slice_of : Option (List StorageIpData) → Json
slice_of none = null
slice_of (some list) = array (ip_data_items list)

unfoldable pub ip_list_object : IpListResult → Json
ip_list_object l =
    object
      (member "IPList" (slice_of l.ip_list) (member "Message" (output_object l.message) no_members))
