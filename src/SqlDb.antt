-- ===== src/SqlDb.antt =====
-- internal/storage/sqldb/sqldb.go over the package database/sql, which is a parameter.
pub mod Client
pub mod Guard
pub mod Listing
pub mod Memory
mod Tests
use golang_fin.Prelude.{
  String, Bool, true, false, List, [], ◌∷◌, ◌++◌, ◌⧺◌, ◌=~◌, ◌||◌, if◌then◌else◌,
}
use golang_fin.Prelude.Int.{ℤ, pos, eqb_ℤ}
use golang_fin.Errors.{
  GoError, Result, ok, err, error_text, storage_timeout, no_record, new_error, sql_no_rows,
}
use golang_fin.StorageData.{StorageIpData, Context, string_build}
use golang_fin.Exec.{Exec, Env, pure, fail, catch, log_info, log_error, log_fail, ◌>>=◌, ◌>>◌}
use golang_fin.Interfaces.{Storage}
use golang_fin.SqlDb.Client.{
  SqlClient, SqlRows, insert_script, delete_script, find_script, all_script, entry_args,
}

-- What `Connect` reads of the configuration.
pub record DbConfig : Type 0 where
  pub user : String
  pub password : String
  pub address : String
  pub port : String
  pub name : String

-- `isValidListName`
unfoldable pub is_valid_list_name : String → Bool
is_valid_list_name listname = listname =~ "whitelist" || listname =~ "blacklist"

module _ {D : Type 0} where
  -- A call of the database, which knows nothing of the log.
  abbrev pub statement : {A : Type 0} → (D → Result A × D) → Exec D A
  statement c e = let (r, s) = c e.state in (r, record e { state = s })

  -- The guard in front of every statement.
  unfoldable pub guard : {A : Type 0} → String → Exec D A → Exec D A
  unfolding is_valid_list_name
  guard listname m =
      if is_valid_list_name listname
      then m
      else log_fail ("List name is invalid: " ⧺ listname)
          (new_error ("List name is invalid: " ⧺ listname))

  -- The error path of a statement.
  abbrev pub failed : {A : Type 0} → String → String → GoError → Exec D A
  failed method script x =
      log_fail ("SQL " ⧺ method ⧺ " script failed: " ⧺ error_text x ⧺ ", SQL script: " ⧺ script) x

  -- The loop over the rows, left at the first that `Scan` refuses.
  unfoldable pub scan_rows :
      List StorageIpData → List (Result (ℤ × ℤ × String)) → Exec D (List StorageIpData)
  scan_rows result_ip [] = pure result_ip
  scan_rows result_ip (err x ∷ rows) = log_fail "SQL IPGetAllFromList rows scan failed" x
  scan_rows result_ip (ok (id, mask, ip) ∷ rows) =
      scan_rows (result_ip ++ (record { ip = ip; mask = mask; id = id } ∷ [])) rows

  -- `IPRemoveFromList` from the number of deleted rows on
  unfoldable pub removed : String → Result ℤ → Exec D Unit
  removed script (err x) = failed "IPRemoveFromList" script x
  removed script (ok count) =
      if eqb_ℤ count (pos 0) then failed "IPRemoveFromList" script no_record else pure tt

  -- `IPIsInList` from the row on
  unfoldable pub found : String → Result (ℤ × String) → Exec D Bool
  found script (ok row) = pure true
  found script (err sql_no_rows) = pure false
  found script (err x) = failed "IPIsInList row" script x

module _ {D : Type 0} (db : SqlClient D) where
  -- `Connect`; the sizes of the pool change nothing that is modelled.
  unfoldable pub connect : DbConfig → Context → Exec D Unit
  connect config ctx =
      let dsn = string_build (
        "postgres://" ∷ config.user ∷ ":" ∷ config.password ∷ "@" ∷ config.address ∷ ":"
        ∷ config.port ∷ "/" ∷ config.name ∷ "?sslmode=disable" ∷ []) in
      if ctx.done
      then fail storage_timeout
      else (catch (statement (db.open_pool dsn))
            (λ x. log_fail ("SQL opening connection failed: " ⧺ error_text x) x)
          >> log_info ("SQL opened connection with dsn: " ⧺ dsn))

  -- `Init`
  unfoldable pub init : DbConfig → Context → Exec D Unit
  unfolding connect
  init config ctx = do
    catch (connect config ctx) (λ x. log_fail ("SQL connection failed: " ⧺ error_text x) x)
    catch (statement (db.ping ctx)) (λ x. log_fail ("SQL DB ping failed: " ⧺ error_text x) x)

  -- `Close`
  unfoldable pub close : Context → Exec D Unit
  close ctx =
      if ctx.done
      then fail storage_timeout
      else catch (statement db.close)
          (λ x. log_fail ("SQL closing connection failed: " ⧺ error_text x) x)

  -- `IPAddToList`
  unfoldable pub ip_add_to_list : Context → String → StorageIpData → Exec D ℤ
  ip_add_to_list ctx listname d = guard listname (
      catch (statement (db.query_id ctx (insert_script listname) (entry_args d)))
        (failed "IPAddToList" (insert_script listname)))

  -- `IPRemoveFromList`
  unfoldable pub ip_remove_from_list : Context → String → StorageIpData → Exec D Unit
  unfolding removed
  ip_remove_from_list ctx listname d = guard listname do
    count ←
        catch (statement (db.exec ctx (delete_script listname) (entry_args d)))
          (failed "IPRemoveFromList" (delete_script listname))
    removed (delete_script listname) count

  -- `IPIsInList`
  unfoldable pub ip_is_in_list : Context → String → StorageIpData → Exec D Bool
  unfolding found
  ip_is_in_list ctx listname d = guard listname λ e.
      let (row, s) = db.query_row ctx (find_script listname) (entry_args d) e.state in
      found (find_script listname) row (record e { state = s })

  -- `IPGetAllFromList`
  unfoldable pub ip_get_all_from_list : Context → String → Exec D (List StorageIpData)
  unfolding scan_rows
  ip_get_all_from_list ctx listname = guard listname do
    rows ← catch (statement (db.query ctx (all_script listname))) (λ x.
        log_fail
          ("SQL IPGetAllFromList query failed: "
            ⧺ error_text x
            ⧺ ", SQL script: "
            ⧺ all_script listname)
          x)
    result_ip ← scan_rows [] rows.scanned
    catch (λ e. (rows.final, e))
        (λ x. log_fail ("SQL IPGetAllFromList row scan failed: " ⧺ error_text x) x)
    pure result_ip

  -- The database as a `Storage` of the application.
  abbrev pub sql_storage : DbConfig → Storage D
  sql_storage config = record {
    init = init config;
    close = close;
    ip_add_to_list = ip_add_to_list;
    ip_remove_from_list = ip_remove_from_list;
    ip_is_in_list = ip_is_in_list;
    ip_get_all_from_list = ip_get_all_from_list;
  }
