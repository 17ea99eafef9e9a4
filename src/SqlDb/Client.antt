-- ===== src/SqlDb/Client.antt =====
-- What internal/storage/sqldb uses of the package database/sql and its driver for PostgreSQL, and
-- what their documentation says of the four statements.
use golang_fin.Prelude.{
  String, ◌≡◌, ◌⊎◌, Bool, true, false, List, [], ◌∷◌, ◌⧺◌, ◌=~◌, ◌&&◌, if◌then◌else◌,
}
use golang_fin.Prelude.Int.{ℤ}
use golang_fin.Errors.{Result, ok, err, sql_no_rows}
use golang_fin.StorageData.{StorageIpData, Context}
use golang_fin.Interfaces.Listing.{IsListName}

-- An argument of a statement.
pub data SqlArg : Type 0 where
  text_arg : String → SqlArg
  int_arg : ℤ → SqlArg

-- The rows of a query in order, each as `Scan` reads it into ID, mask and IP, and what `rows.Err`
-- returns after the last.
pub record SqlRows : Type 0 where
  pub scanned : List (Result (ℤ × ℤ × String))
  pub final : Result Unit

pub record SqlClient (D : Type 0) : Type 0 where
  pub open_pool : String → D → Result Unit × D
  pub ping : Context → D → Result Unit × D
  pub close : D → Result Unit × D
  -- `QueryRowContext(…).Scan(&id)`
  pub query_id : Context → String → List SqlArg → D → Result ℤ × D
  -- `QueryRowContext(…).Scan(&id, &ip)`
  pub query_row : Context → String → List SqlArg → D → Result (ℤ × String) × D
  -- `ExecContext`, and what `RowsAffected` returns on its result
  pub exec : Context → String → List SqlArg → D → Result (Result ℤ) × D
  pub query : Context → String → D → Result SqlRows × D

-- The statements.
abbrev pub insert_script : String → String
insert_script listname = "INSERT INTO " ⧺ listname ⧺ "(IP, mask) VALUES ($1,$2) RETURNING id"

abbrev pub delete_script : String → String
delete_script listname = "DELETE FROM " ⧺ listname ⧺ " WHERE IP = $1 AND Mask = $2"

abbrev pub find_script : String → String
find_script listname = "SELECT id, IP FROM " ⧺ listname ⧺ " WHERE IP = $1 AND Mask = $2"

abbrev pub all_script : String → String
all_script listname = "SELECT id, mask, IP FROM " ⧺ listname

abbrev pub entry_args : StorageIpData → List SqlArg
entry_args d = text_arg d.ip ∷ int_arg d.mask ∷ []

-- `has` tells whether a table has a row that equals an entry in address and mask, and `same` whether
-- two entries equal one another so, by the equality of the columns: the address is of type inet in
-- migrations/001_migration.sql, so that two texts may be one address. A statement that fails on the
-- way has been carried out or not; so may one fail for a text that is no inet.
pub record IsSql {D : Type 0} (db : SqlClient D) (same : StorageIpData → StorageIpData → Bool)
    (has : D → String → StorageIpData → Bool) : Type 0 where
  pub same_refl : (d : StorageIpData) → same d d ≡ true
  pub same_sym : (d d' : StorageIpData) → same d d' ≡ true → same d' d ≡ true
  pub same_trans :
      (d d' d'' : StorageIpData) → same d d' ≡ true → same d' d'' ≡ true → same d d'' ≡ true
  pub has_same :
      (s : D) (name : String) (d d' : StorageIpData)
      → same d d' ≡ true
      → has s name d ≡ has s name d'
  pub insert_ok :
      (ctx : Context) (name : String) (d : StorageIpData) (s : D) (id : ℤ) (j : String)
      (d' : StorageIpData)
      → IsListName name
      → (db.query_id ctx (insert_script name) (entry_args d) s).0 ≡ ok id
      → has (db.query_id ctx (insert_script name) (entry_args d) s).1 j d'
        ≡ (if name =~ j && same d d' then true else has s j d')
  pub insert_only :
      (ctx : Context) (name : String) (d : StorageIpData) (s : D) (j : String) (d' : StorageIpData)
      → IsListName name
      → has (db.query_id ctx (insert_script name) (entry_args d) s).1 j d' ≡ true
      → (has s j d' ≡ true) ⊎ ((name ≡ j) × (same d d' ≡ true))
  pub delete_ok :
      (ctx : Context) (name : String) (d : StorageIpData) (s : D) (n : Result ℤ) (j : String)
      (d' : StorageIpData)
      → IsListName name
      → (db.exec ctx (delete_script name) (entry_args d) s).0 ≡ ok n
      → has (db.exec ctx (delete_script name) (entry_args d) s).1 j d'
        ≡ (if name =~ j && same d d' then false else has s j d')
  pub delete_only :
      (ctx : Context) (name : String) (d : StorageIpData) (s : D) (j : String) (d' : StorageIpData)
      → IsListName name
      → has (db.exec ctx (delete_script name) (entry_args d) s).1 j d' ≡ true
      → has s j d' ≡ true
  pub find_row :
      (ctx : Context) (name : String) (d : StorageIpData) (s : D) (row : ℤ × String)
      → IsListName name
      → (db.query_row ctx (find_script name) (entry_args d) s).0 ≡ ok row
      → has s name d ≡ true
  pub find_none :
      (ctx : Context) (name : String) (d : StorageIpData) (s : D)
      → IsListName name
      → (db.query_row ctx (find_script name) (entry_args d) s).0 ≡ err sql_no_rows
      → has s name d ≡ false
  pub find_keeps :
      (ctx : Context) (name : String) (d : StorageIpData) (s : D) (j : String) (d' : StorageIpData)
      → IsListName name
      → has (db.query_row ctx (find_script name) (entry_args d) s).1 j d' ≡ has s j d'
  pub all_keeps :
      (ctx : Context) (name : String) (s : D) (j : String) (d' : StorageIpData)
      → IsListName name
      → has (db.query ctx (all_script name) s).1 j d' ≡ has s j d'
