-- ===== src/SqlDb/Guard.antt =====
-- The guard in front of the statements of sqldb.go, and the rows that a listing returns.
use mathlib.Core.List.{append-nil}
use golang_fin.Prelude.{
  String, ◌≡◌, ◌≢◌, refl, sym, ◌∙◌, ap, false, arith, ◌⧺◌, inl, inr, eq_iff, List, [], ◌∷◌, ◌++◌,
  map,
}
use golang_fin.Prelude.Int.{ℤ}
use golang_fin.Errors.{Result, ok, err, new_error}
use golang_fin.StorageData.{StorageIpData, Context, white_list_name, black_list_name}
use golang_fin.Exec.{Env, error, Result-cases}
use golang_fin.SqlDb.Client.{SqlClient, SqlRows, all_script}
use golang_fin.SqlDb.{
  is_valid_list_name, guard, scan_rows, ip_add_to_list, ip_remove_from_list, ip_is_in_list,
  ip_get_all_from_list,
}

-- The call fails with an error about the name, which is logged, and the database is not touched.
abbrev pub IsRefused : {D A : Type 0} → String → Env D → Result A × Env D → Type 0
IsRefused name e out = out ≡ (
  err (new_error ("List name is invalid: " ⧺ name)),
  record {
    state = e.state;
    log = record { level = error; msg = "List name is invalid: " ⧺ name } ∷ e.log;
  },
)

invalid_lem :
    (name : String)
    → name ≢ white_list_name
    → name ≢ black_list_name
    → is_valid_list_name name ≡ false
unfolding is_valid_list_name
invalid_lem name w b = ground (arith, eq_iff name "whitelist", eq_iff name "blacklist")

module _ {D : Type 0} (db : SqlClient D) (ctx : Context) (e : Env D) where
  -- A name other than "whitelist" and "blacklist" never becomes part of a statement: every method
  -- refuses it, without a call of the database.
  pub invalid_name-IsRefused :
      (name : String) (d : StorageIpData)
      → name ≢ white_list_name
      → name ≢ black_list_name
      → IsRefused name e (ip_add_to_list db ctx name d e)
        × IsRefused name e (ip_remove_from_list db ctx name d e)
        × IsRefused name e (ip_is_in_list db ctx name d e)
        × IsRefused name e (ip_get_all_from_list db ctx name e)
  unfolding ip_add_to_list ip_remove_from_list ip_is_in_list ip_get_all_from_list guard
  invalid_name-IsRefused name d w b =
      let bad = invalid_lem name w b in (rw bad refl, rw bad refl, rw bad refl, rw bad refl)

-- A row as `Scan` reads it.
abbrev pub row_of : StorageIpData → Result (ℤ × ℤ × String)
row_of d = ok (d.id, d.mask, d.ip)

map-append_one :
    (l : List StorageIpData) (d : StorageIpData) (rows : List (Result (ℤ × ℤ × String)))
    → map row_of (l ++ (d ∷ [])) ++ rows ≡ map row_of l ++ (row_of d ∷ rows)
map-append_one [] d rows = refl
map-append_one (x ∷ l) d rows = ap (λ r. row_of x ∷ r) (map-append_one l d rows)

ok-injective : {A : Type 0} (a b : A) → ok a ≡ ok b → a ≡ b
ok-injective a b h = cc

scan_rows-all :
    {D : Type 0} (listed : List StorageIpData) (rows : List (Result (ℤ × ℤ × String))) (e : Env D)
    (ds : List StorageIpData)
    → (scan_rows listed rows e).0 ≡ ok ds
    → map row_of ds ≡ map row_of listed ++ rows
unfolding scan_rows
scan_rows-all listed [] e ds h =
    ap (map row_of) (sym (ok-injective listed ds h)) ∙ sym (append-nil (map row_of listed))
scan_rows-all listed (err x ∷ rows) e ds h = cc
scan_rows-all listed (ok (id, mask, ip) ∷ rows) e ds h =
    scan_rows-all (listed ++ (record { ip = ip; mask = mask; id = id } ∷ [])) rows e ds h
    ∙ map-append_one listed (record { ip = ip; mask = mask; id = id }) rows

module _ {D : Type 0} (db : SqlClient D) (ctx : Context) (name : String) (e : Env D) where
  -- A listing that succeeds has exactly the rows of the query, in their order, and every one of them
  -- was read without an error.
  pub get_all-rows :
      (ds : List StorageIpData)
      → (ip_get_all_from_list db ctx name e).0 ≡ ok ds
      → (rows : SqlRows) × ((db.query ctx (all_script name) e.state).0 ≡ ok rows)
        × (map row_of ds ≡ rows.scanned)
        × (rows.final ≡ ok tt)
  unfolding ip_get_all_from_list guard
  get_all-rows ds h = elim (Result-cases (db.query ctx (all_script name) e.state).0) [
    | inl (rows, done) ↦ (
      rows,
      done,
      scan_rows-all [] rows.scanned
          (record e { state = (db.query ctx (all_script name) e.state).1 }) ds (ground arith),
      ground arith,
    )
    | inr (x, failure) ↦ absurd (ground arith)
  ]
