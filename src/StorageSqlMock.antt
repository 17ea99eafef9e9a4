-- ===== src/StorageSqlMock.antt =====
-- internal/storage/storageSQLMock/storageSQLMock.go: the lists in memory. A method is one step here;
-- the mutex is not modelled. The source holds it during an addition and a look-up, but a removal
-- reads the map before it takes the mutex, and `IPGetAllFromList` returns for an unknown list
-- without releasing it, so that a later addition or removal would wait there.
pub mod Listing
pub mod Invariant
pub mod Order
pub mod Bounds
mod Tests
use golang_fin.Prelude.{
  ℕ, ◌+◌, String, Bool, true, false, Option, none, some, List, [], ◌=~◌, ◌⧺◌, if◌then◌else◌,
}
use golang_fin.Prelude.Int.{ℤ, pos, ltb_ℤ}
use golang_fin.Std.Strconv.{itoa}
use golang_fin.Std.Map.{lookup, insert, delete, values}
use golang_fin.Std.Sort.{sort_stable}
use golang_fin.Errors.{Result, ok, err, storage_timeout, bad_list_type, no_record}
use golang_fin.StorageData.{StorageIpData, Context, white_list_name, black_list_name}
use golang_fin.Exec.{Exec, pure, fail}
use golang_fin.Interfaces.{Storage}

-- `StorageSQLMock`
pub record Mock : Type 0 where
  pub whitelist : List (String × StorageIpData)
  pub blacklist : List (String × StorageIpData)
  pub id_white : ℕ
  pub id_black : ℕ

-- The key of an entry.
unfoldable pub tag : StorageIpData → String
tag d = d.ip ⧺ "/" ⧺ itoa d.mask

-- `Init`
unfoldable pub init : Context → Exec Mock Unit
init ctx e = (
  ok tt,
  record e { state = record { whitelist = []; blacklist = []; id_white = 0; id_black = 0 } },
)

-- `Close`
unfoldable pub close : Context → Exec Mock Unit
close ctx = pure tt

-- A method whose context is done fails before it does anything.
abbrev unless_done : {A : Type 0} → Context → Exec Mock A → Exec Mock A
unless_done ctx m = if ctx.done then fail storage_timeout else m

-- `IPAddToList`
unfoldable pub ip_add_to_list : Context → String → StorageIpData → Exec Mock ℤ
unfolding tag
ip_add_to_list ctx listname d = unless_done ctx λ e.
    let m = e.state in
    if listname =~ white_list_name
    then (
      ok (pos m.id_white),
      record e {
        state = record m {
          whitelist = insert (tag d) (record d { id = pos m.id_white }) m.whitelist;
          id_white = m.id_white + 1;
        };
      },
    )
    else if listname =~ black_list_name
    then (
      ok (pos m.id_black),
      record e {
        state = record m {
          blacklist = insert (tag d) (record d { id = pos m.id_black }) m.blacklist;
          id_black = m.id_black + 1;
        };
      },
    )
    else (err bad_list_type, e)

abbrev is_some : {A : Type 0} → Option A → Bool
is_some none = false
is_some (some a) = true

-- The switch that both `IPIsInList` and `IPRemoveFromList` look a tag up by.
unfoldable pub find_tag : String → String → Mock → Result Bool
find_tag listname key m =
    if listname =~ white_list_name
    then ok (is_some (lookup key m.whitelist))
    else if listname =~ black_list_name
    then ok (is_some (lookup key m.blacklist))
    else err bad_list_type

-- `IPIsInList`
unfoldable pub ip_is_in_list : Context → String → StorageIpData → Exec Mock Bool
unfolding tag find_tag
ip_is_in_list ctx listname d = unless_done ctx λ e. (find_tag listname (tag d) e.state, e)

-- The second switch of `IPRemoveFromList`.
unfoldable pub delete_tag : String → String → Exec Mock Unit
delete_tag listname key e =
    let m = e.state in
    if listname =~ white_list_name
    then (ok tt, record e { state = record m { whitelist = delete key m.whitelist } })
    else if listname =~ black_list_name
    then (ok tt, record e { state = record m { blacklist = delete key m.blacklist } })
    else (err bad_list_type, e)

remove_found : Result Bool → String → String → Exec Mock Unit
unfolding delete_tag
remove_found (err x) listname key = fail x
remove_found (ok false) listname key = fail no_record
remove_found (ok true) listname key = delete_tag listname key

-- `IPRemoveFromList`
unfoldable pub ip_remove_from_list : Context → String → StorageIpData → Exec Mock Unit
unfolding tag find_tag remove_found
ip_remove_from_list ctx listname d =
    unless_done ctx λ e. remove_found (find_tag listname (tag d) e.state) listname (tag d) e

-- `resultIPData[i].ID < resultIPData[j].ID`
abbrev pub id_less : StorageIpData → StorageIpData → Bool
id_less d d' = ltb_ℤ d.id d'.id

-- The order in which `range` visits the values of a map is not determined.
module _ (visit : List StorageIpData → List StorageIpData) where
  -- `IPGetAllFromList`
  unfoldable pub ip_get_all_from_list : Context → String → Exec Mock (List StorageIpData)
  ip_get_all_from_list ctx listname = unless_done ctx λ e.
      let m = e.state in
      if listname =~ white_list_name
      then (ok (sort_stable id_less (visit (values m.whitelist))), e)
      else if listname =~ black_list_name
      then (ok (sort_stable id_less (visit (values m.blacklist))), e)
      else (err bad_list_type, e)

  -- The mock as a `Storage` of the application.
  abbrev pub mock_storage : Storage Mock
  mock_storage = record {
    init = init;
    close = close;
    ip_add_to_list = ip_add_to_list;
    ip_remove_from_list = ip_remove_from_list;
    ip_is_in_list = ip_is_in_list;
    ip_get_all_from_list = ip_get_all_from_list;
  }
