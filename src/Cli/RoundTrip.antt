-- ===== src/Cli/RoundTrip.antt =====
-- The client reads from an answer what the server has put into it.
use golang_fin.Prelude.{String, ◌≡◌, refl, true, false, Option, none, some, List, [], ◌∷◌, All}
use golang_fin.Prelude.Int.{ℤ, IsInt64}
use golang_fin.Std.Json.{
  number, unmarshal_value, set_members, set_items, set_slice, set_string, set_int, set_bool, names,
}
use golang_fin.Std.Strconv.{itoa}
use golang_fin.Std.Strconv.RoundTrip.{atoi-itoa}
use golang_fin.Std.Json.Print.{print}
use golang_fin.Std.Json.Step.{scan}
use golang_fin.Std.Json.RoundTrip.{scan-print, HasNumerals, AllNumerals}
use golang_fin.Std.Json.Numerals.{itoa-is_numeral}
use golang_fin.Std.Json.Syntax.{json_syntax}
use golang_fin.Errors.{ok}
use golang_fin.StorageData.{StorageIpData}
use golang_fin.Server.{OutputJson, AuthorizationRequestAnswer, IpListResult}
use golang_fin.Server.Decode.{set_ip_data, unmarshal}
use golang_fin.Server.Encode.{
  slice_of, output_object, authorization_object, ip_data_object, ip_data_items, ip_list_object,
}
use golang_fin.Cli.Decode.{
  set_output, set_authorization, set_ip_list, zero_output, zero_ip_data, unmarshal_output,
  unmarshal_authorization, unmarshal_ip_list,
}

set_int-itoa : (z old : ℤ) → IsInt64 z → set_int (number (itoa z)) old ≡ (z, true)
unfolding set_int
set_int-itoa z old h = rw (set_int, atoi-itoa z h)

output_back :
    (o : OutputJson)
    → IsInt64 o.code
    → unmarshal_value set_output (output_object o) zero_output ≡ (o, true)
unfolding unmarshal_value set_output set_members output_object names set_string
output_back o h = rw (set_int-itoa o.code zero_output.code h)

authorization_back :
    (a : AuthorizationRequestAnswer)
    → unmarshal_value set_authorization
        (authorization_object a)
        (record { message = ""; passed = false })
      ≡ (a, true)
unfolding unmarshal_value set_authorization set_members authorization_object names set_string
    set_bool
authorization_back a = refl

abbrev Fits : StorageIpData → Type 0
Fits d = IsInt64 d.mask × IsInt64 d.id

ip_data_back :
    (d : StorageIpData)
    → Fits d
    → unmarshal_value set_ip_data (ip_data_object d) zero_ip_data ≡ (d, true)
unfolding unmarshal_value set_ip_data set_members ip_data_object names set_string
ip_data_back d (m, i) = rw (set_int-itoa d.mask _ m, set_int-itoa d.id _ i)

items_back :
    (list : List StorageIpData)
    → All Fits list
    → set_items set_ip_data zero_ip_data (ip_data_items list) ≡ (list, true)
unfolding set_items ip_data_items
items_back [] h = refl
items_back (d ∷ list) (h, hs) = rw (ip_data_back d h, items_back list hs)

abbrev pub AllFit : Option (List StorageIpData) → Type 0
AllFit none = Unit
AllFit (some list) = All Fits list

slice_back :
    (slice : Option (List StorageIpData))
    → AllFit slice
    → set_slice set_ip_data zero_ip_data (slice_of slice) none ≡ (slice, true)
unfolding set_slice
slice_back none h = refl
slice_back (some list) h = rw (items_back list h)

ip_list_back :
    (l : IpListResult)
    → AllFit l.ip_list
    → IsInt64 l.message.code
    → unmarshal_value set_ip_list
        (ip_list_object l)
        (record { ip_list = none; message = zero_output })
      ≡ (l, true)
unfolding set_ip_list set_members ip_list_object names
ip_list_back l h c = rw (unmarshal_value, slice_back l.ip_list h, output_back l.message c) refl

items_AllNumerals : (list : List StorageIpData) → AllNumerals (ip_data_items list)
unfolding ip_data_items ip_data_object HasNumerals
items_AllNumerals [] = tt
items_AllNumerals (d ∷ list) =
    ((tt, (itoa-is_numeral d.mask, (itoa-is_numeral d.id, tt))), items_AllNumerals list)

slice_HasNumerals : (slice : Option (List StorageIpData)) → HasNumerals (slice_of slice)
unfolding HasNumerals
slice_HasNumerals none = tt
slice_HasNumerals (some list) = items_AllNumerals list

output_scanned : (o : OutputJson) → scan (print (output_object o)) ≡ some (output_object o)
unfolding output_object HasNumerals
output_scanned o = scan-print (output_object o) (tt, (itoa-is_numeral o.code, tt))

authorization_scanned :
    (a : AuthorizationRequestAnswer)
    → scan (print (authorization_object a)) ≡ some (authorization_object a)
unfolding authorization_object HasNumerals
authorization_scanned a = scan-print (authorization_object a) (tt, (tt, tt))

ip_list_scanned : (l : IpListResult) → scan (print (ip_list_object l)) ≡ some (ip_list_object l)
unfolding ip_list_object output_object HasNumerals
ip_list_scanned l =
    scan-print (ip_list_object l)
      (slice_HasNumerals l.ip_list, ((tt, (itoa-is_numeral l.message.code, tt)), tt))

module _ (error_of : String → String → String) where
  pub output_read :
      (o : OutputJson)
      → IsInt64 o.code
      → unmarshal_output (json_syntax error_of) (print (output_object o)) ≡ ok o
  unfolding unmarshal_output unmarshal
  output_read o h = rw (unmarshal, output_scanned o, output_back o h) refl

  pub authorization_read :
      (a : AuthorizationRequestAnswer)
      → unmarshal_authorization (json_syntax error_of) (print (authorization_object a)) ≡ ok a
  unfolding unmarshal_authorization unmarshal
  authorization_read a = rw (unmarshal, authorization_scanned a, authorization_back a) refl

  pub ip_list_read :
      (l : IpListResult)
      → AllFit l.ip_list
      → IsInt64 l.message.code
      → unmarshal_ip_list (json_syntax error_of) (print (ip_list_object l)) ≡ ok l
  unfolding unmarshal_ip_list unmarshal
  ip_list_read l h c = rw (unmarshal, ip_list_scanned l, ip_list_back l h c) refl

  -- The text that `json.Marshal` makes of an answer of the server, `json.Unmarshal` of the client reads
  -- back to the same value, in each of the three structs, if the numbers in it are of 64 bits: also the
  -- difference between a nil list and an empty one.
  pub unmarshal-print :
      (o : OutputJson) (a : AuthorizationRequestAnswer) (l : IpListResult)
      → IsInt64 o.code
      → AllFit l.ip_list
      → IsInt64 l.message.code
      → (unmarshal_output (json_syntax error_of) (print (output_object o)) ≡ ok o)
        × (unmarshal_authorization (json_syntax error_of) (print (authorization_object a)) ≡ ok a)
        × (unmarshal_ip_list (json_syntax error_of) (print (ip_list_object l)) ≡ ok l)
  unmarshal-print o a l code entries message =
      (output_read o code, authorization_read a, ip_list_read l entries message)
