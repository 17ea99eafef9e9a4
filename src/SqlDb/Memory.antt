-- ===== src/SqlDb/Memory.antt =====
-- A database in memory that knows the eight statements. It reads addresses as numbers, of four fields
-- of digits, so that 010.0.0.1 and 10.0.0.1 are one, and refuses other texts. It meets the
-- assumptions on database/sql, so that they can be met, and it runs.
pub mod Laws
use golang_fin.Prelude.{
  ℕ, ◌+◌, ◌*◌, ◌^◌, ◌==◌, leb, ◌⊎◌, ◌↔◌, Option-cases, String, ◌≡◌, refl, Bool, true, false, Option,
  some, none, arith, ◌=~◌, ◌&&◌, inl, inr, if◌then◌else◌, eq_iff, List, [], ◌∷◌, length,
}
use golang_fin.Prelude.Int.{ℤ, pos, eqb_ℤ, eqb_ℤ_iff}
use golang_fin.Std.Strings.{split}
use golang_fin.Std.Strconv.{value, failed, parse_uint}
use golang_fin.Errors.{GoError, Result, ok, err, sql_no_rows, external}
use golang_fin.StorageData.{StorageIpData, Context}
use golang_fin.Interfaces.Listing.{IsListName}
use golang_fin.SqlDb.Client.{
  SqlArg, text_arg, int_arg, SqlClient, SqlRows, IsSql, insert_script, delete_script, find_script,
  all_script, entry_args,
}

-- The number of the fields of an address after those read
unfoldable pub inet_from : ℕ → List String → Option ℕ
inet_from n [] = some n
inet_from n (p ∷ ps) = elim (parse_uint p) [
  | value m ↦ if leb m 255 then inet_from (n * 256 + m) ps else none
  | failed x ↦ none
]

-- The address of a text
unfoldable pub inet : String → Option ℕ
inet s = let ps = split b'.' s in if length ps == 4 then inet_from 0 ps else none

abbrev pub address_of : Option ℕ → ℕ
address_of none = 2 ^ 32
address_of (some n) = n

unfoldable pub same_row : StorageIpData → StorageIpData → Bool
same_row d d' = address_of (inet d.ip) == address_of (inet d'.ip) && eqb_ℤ d.mask d'.mask

-- The rows with the names of their tables, the newest first.
abbrev pub Rows : Type 0
Rows = List (String × StorageIpData)

unfoldable pub has_row : Rows → String → StorageIpData → Bool
has_row [] name d = false
has_row ((t, c) ∷ rows) name d = if t =~ name && same_row c d then true else has_row rows name d

unfoldable pub delete_rows : String → StorageIpData → Rows → Rows
delete_rows name d [] = []
delete_rows name d ((t, c) ∷ rows) =
    let rest = delete_rows name d rows in if t =~ name && same_row c d then rest else (t, c) ∷ rest

-- The table that a statement is about, and the entry among its arguments.
unfoldable pub table_of : (String → String) → String → Option String
table_of script_of script =
    if script =~ script_of "whitelist"
    then some "whitelist"
    else if script =~ script_of "blacklist"
    then some "blacklist"
    else none

abbrev pub not_inet : GoError
not_inet = external "ERROR: invalid input syntax for type inet"

abbrev pub known_entry : Option ℕ → StorageIpData → Option StorageIpData
known_entry none d = none
known_entry (some n) d = some d

abbrev pub entry_of : List SqlArg → Option StorageIpData
entry_of (text_arg ip ∷ int_arg mask ∷ []) =
    known_entry (inet ip) (record { ip = ip; mask = mask; id = pos 0 })
entry_of _ = none

-- A statement on an entry of a table.
abbrev pub on_entry :
    {A : Type 0}
    → (String → String)
    → String
    → List SqlArg
    → Rows
    → (String → StorageIpData → Result A × Rows)
    → Result A × Rows
on_entry script_of script args rows run = elim (table_of script_of script) [
  | some name ↦ elim (entry_of args) [ some d ↦ run name d | none ↦ (err (not_inet), rows) ]
  | none ↦ (err (external "ERROR: syntax error"), rows)
]

unfoldable pub insert_row : Context → String → List SqlArg → Rows → Result ℤ × Rows
insert_row ctx script args rows =
    on_entry insert_script script args rows
      (λ name d. (ok (pos (length rows)), (name, record d { id = pos (length rows) }) ∷ rows))

unfoldable pub remove_row : Context → String → List SqlArg → Rows → Result (Result ℤ) × Rows
remove_row ctx script args rows =
    on_entry delete_script script args rows
      (λ name d. (ok (ok (if has_row rows name d then pos 1 else pos 0)), delete_rows name d rows))

unfoldable pub find_row : Context → String → List SqlArg → Rows → Result (ℤ × String) × Rows
find_row ctx script args rows =
    on_entry find_script script args rows
      (λ name d. (if has_row rows name d then ok (pos 0, d.ip) else err sql_no_rows, rows))

unfoldable pub rows_of : String → Rows → List (Result (ℤ × ℤ × String))
rows_of name [] = []
rows_of name ((t, d) ∷ rows) =
    let rest = rows_of name rows in if t =~ name then ok (d.id, d.mask, d.ip) ∷ rest else rest

unfoldable pub all_rows : Context → String → Rows → Result SqlRows × Rows
all_rows ctx script rows = elim (table_of all_script script) [
  | some name ↦ (ok (record { scanned = rows_of name rows; final = ok tt }), rows)
  | none ↦ (err (external "ERROR: syntax error"), rows)
]

abbrev pub memory_db : SqlClient Rows
memory_db = record {
  open_pool = λ dsn rows. (ok tt, rows);
  ping = λ ctx rows. (ok tt, rows);
  close = λ rows. (ok tt, rows);
  query_id = insert_row;
  query_row = find_row;
  exec = remove_row;
  query = all_rows;
}
