-- ===== src/SqlDb/Tests.antt =====
-- Runs of sqldb.go over the database in memory, and its theorems at that database.
use golang_fin.Prelude.{String, ◌≡◌, ◌≢◌, refl, arith, false, true, [], ◌∷◌, map, eq_iff}
use golang_fin.Prelude.Int.{pos}
use golang_fin.Errors.{ok, err, no_record}
use golang_fin.Std.Strings.{split}
use golang_fin.Std.Strconv.{parse_uint}
use golang_fin.StorageData.{StorageIpData, Context}
use golang_fin.Exec.{Env}
use golang_fin.Interfaces.Listing.{IsListing}
use golang_fin.SqlDb.{
  DbConfig, guard, ip_add_to_list, ip_remove_from_list, ip_is_in_list, ip_get_all_from_list,
  sql_storage,
}
use golang_fin.SqlDb.Client.{SqlRows, all_script}
use golang_fin.SqlDb.Memory.{
  Rows, memory_db, has_row, same_row, inet, inet_from, delete_rows, table_of, rows_of, insert_row,
  remove_row, find_row, all_rows,
}
use golang_fin.SqlDb.Memory.Laws.{memory-IsSql}
use golang_fin.SqlDb.Guard.{IsRefused, invalid_name-IsRefused, row_of, get_all-rows}
use golang_fin.SqlDb.Listing.{sql-IsListing}

abbrev live : Context
live = record { done = false }

abbrev config : DbConfig
config = record { user = "u"; password = "p"; address = "db"; port = "5432"; name = "bf" }

abbrev entry : StorageIpData
entry = record { ip = "10.0.0.0"; mask = pos 24; id = pos 0 }

abbrev empty : Env Rows
empty = record { state = []; log = [] }

abbrev one_row : Env Rows
one_row = record { state = ("whitelist", entry) ∷ []; log = [] }

runs : Unit {0}
unfolding ip_add_to_list ip_remove_from_list ip_is_in_list ip_get_all_from_list guard insert_row
    remove_row find_row all_rows table_of rows_of delete_rows has_row same_row inet inet_from split
    parse_uint
runs = tt

added_and_found :
    (ip_is_in_list memory_db live "whitelist" entry
      (ip_add_to_list memory_db live "whitelist" entry empty).1).0
    ≡ ok true
unfolding runs
added_and_found = refl

not_in_the_other : (ip_is_in_list memory_db live "blacklist" entry one_row).0 ≡ ok false
unfolding runs
not_in_the_other = refl

removed_once :
    (ip_remove_from_list memory_db live "whitelist" entry
      (ip_remove_from_list memory_db live "whitelist" entry one_row).1).0
    ≡ err no_record
unfolding runs
removed_once = refl

abbrev padded : StorageIpData
padded = record { ip = "010.0.0.0"; mask = pos 24; id = pos 0 }

-- Two texts of one address
found_by_value : (ip_is_in_list memory_db live "whitelist" padded one_row).0 ≡ ok true
unfolding runs
found_by_value = refl

all_listed : (ip_get_all_from_list memory_db live "whitelist" one_row).0 ≡ ok (entry ∷ [])
unfolding runs
all_listed = refl

sql-IsListing_example : IsListing (sql_storage memory_db config) same_row has_row
sql-IsListing_example = sql-IsListing memory_db same_row has_row memory-IsSql config

abbrev crafted : String
crafted = "whitelist; DROP TABLE blacklist"

not_white : ◌≢◌ {A = String} crafted "whitelist"
not_white = ground (arith, eq_iff crafted "whitelist")

not_black : ◌≢◌ {A = String} crafted "blacklist"
not_black = ground (arith, eq_iff crafted "blacklist")

invalid_name-IsRefused_example :
    IsRefused crafted empty (ip_add_to_list memory_db live crafted entry empty)
    × IsRefused crafted empty (ip_remove_from_list memory_db live crafted entry empty)
    × IsRefused crafted empty (ip_is_in_list memory_db live crafted entry empty)
    × IsRefused crafted empty (ip_get_all_from_list memory_db live crafted empty)
invalid_name-IsRefused_example =
    invalid_name-IsRefused memory_db live empty crafted entry not_white not_black

get_all-rows_example :
    (rows : SqlRows) × ((memory_db.query live (all_script "whitelist") one_row.state).0 ≡ ok rows)
    × (map row_of (entry ∷ []) ≡ rows.scanned)
    × (rows.final ≡ ok tt)
get_all-rows_example = get_all-rows memory_db live "whitelist" one_row (entry ∷ []) all_listed
