-- ===== src/SqlDb/Listing.antt =====
-- The database fills the interface of a storage of lists; a name that is no list reaches no statement.
use golang_fin.Prelude.{
  String, ◌≡◌, refl, sym, ◌∙◌, Bool, true, false, arith, ◌⧺◌, ◌⊎◌, inl, inr, eq_iff, List, [], ◌∷◌,
}
use golang_fin.Prelude.Int.{ℤ}
use golang_fin.Errors.{GoError, new_error, Result, ok, err, sql_no_rows}
use golang_fin.StorageData.{StorageIpData, Context}
use golang_fin.Exec.{Env, Result-cases}
use golang_fin.Interfaces.Listing.{IsListName, IsListing}
use golang_fin.SqlDb.Client.{
  SqlClient, IsSql, insert_script, delete_script, find_script, all_script, entry_args,
}
use golang_fin.SqlDb.{
  DbConfig, is_valid_list_name, guard, found, scan_rows, ip_add_to_list, ip_remove_from_list,
  ip_is_in_list, ip_get_all_from_list, sql_storage,
}

valid-cases : (name : String) → IsListName name ⊎ (is_valid_list_name name ≡ false)
unfolding is_valid_list_name
valid-cases name = ground (arith, eq_iff name "whitelist", eq_iff name "blacklist")

valid_of : (name : String) → IsListName name → is_valid_list_name name ≡ true
unfolding is_valid_list_name
valid_of name h = ground (arith, eq_iff name "whitelist", eq_iff name "blacklist")

found-cases :
    {D : Type 0} (script : String) (r : Result (ℤ × String)) (b : Bool) (e : Env D)
    → (found script r e).0 ≡ ok b
    → ((row : ℤ × String) × (r ≡ ok row) × (b ≡ true)) ⊎ ((r ≡ err sql_no_rows) × (b ≡ false))
unfolding found
found-cases script (ok row) b e h = inl (row, refl, ground arith)
found-cases script (err x) b e h = ground arith

found-state :
    {D : Type 0} (script : String) (r : Result (ℤ × String)) (e : Env D)
    → (found script r e).1.state ≡ e.state
unfolding found
found-state script (ok row) e = refl
found-state script (err x) e = ground arith

scan_rows-state :
    {D : Type 0} (listed : List StorageIpData) (rows : List (Result (ℤ × ℤ × String))) (e : Env D)
    → (scan_rows listed rows e).1.state ≡ e.state
unfolding scan_rows
scan_rows-state listed [] e = refl
scan_rows-state listed (err x ∷ rows) e = refl
scan_rows-state listed (ok (id, mask, ip) ∷ rows) e = scan_rows-state _ rows e

module _ {D : Type 0} (db : SqlClient D) (same : StorageIpData → StorageIpData → Bool)
    (has : D → String → StorageIpData → Bool) (laws : IsSql db same has) where
  -- After the guard the state is that after the statement.
  module _ (ctx : Context) (name : String) (d : StorageIpData) (e : Env D) where
    abbrev Refused : {A : Type 0} → Result A × Env D → Type 0
    Refused out = (out.1.state ≡ e.state) × ((x : GoError) × (out.0 ≡ err x))

    add-cases :
        (IsListName name
          × ((ip_add_to_list db ctx name d e).0
              ≡ (db.query_id ctx (insert_script name) (entry_args d) e.state).0)
          × ((ip_add_to_list db ctx name d e).1.state
              ≡ (db.query_id ctx (insert_script name) (entry_args d) e.state).1))
        ⊎ Refused (ip_add_to_list db ctx name d e)
    unfolding ip_add_to_list guard
    add-cases = elim (valid-cases name) [
      | inl h ↦ inl (h, ground (arith, valid_of name h), ground (arith, valid_of name h))
      | inr bad ↦ inr (rw bad refl, (new_error ("List name is invalid: " ⧺ name), rw bad refl))
    ]

    deleted :
        IsListName name
        → (ip_remove_from_list db ctx name d e).0 ≡ ok tt
        → (n : Result ℤ) × ((db.exec ctx (delete_script name) (entry_args d) e.state).0 ≡ ok n)
    unfolding ip_remove_from_list guard
    deleted h q = elim (Result-cases (db.exec ctx (delete_script name) (entry_args d) e.state).0) [
      | inl gone ↦ gone
      | inr (x, failure) ↦ absurd (ground (arith, valid_of name h))
    ]

    remove-cases :
        (IsListName name
          × ((ip_remove_from_list db ctx name d e).0 ≡ ok tt
              → (n : Result ℤ) × ((db.exec ctx (delete_script name) (entry_args d) e.state).0
                  ≡ ok n))
          × ((ip_remove_from_list db ctx name d e).1.state
              ≡ (db.exec ctx (delete_script name) (entry_args d) e.state).1))
        ⊎ Refused (ip_remove_from_list db ctx name d e)
    unfolding ip_remove_from_list guard
    remove-cases = elim (valid-cases name) [
      | inl h ↦ inl (h, deleted h, ground (arith, valid_of name h))
      | inr bad ↦ inr (rw bad refl, (new_error ("List name is invalid: " ⧺ name), rw bad refl))
    ]

    find-cases :
        (IsListName name
          × ((ip_is_in_list db ctx name d e).0
              ≡ (found
                  (find_script name)
                  (db.query_row ctx (find_script name) (entry_args d) e.state).0
                  (record e {
                    state = (db.query_row ctx (find_script name) (entry_args d) e.state).1;
                  })).0)
          × ((ip_is_in_list db ctx name d e).1.state
              ≡ (db.query_row ctx (find_script name) (entry_args d) e.state).1))
        ⊎ Refused (ip_is_in_list db ctx name d e)
    unfolding ip_is_in_list guard
    find-cases = elim (valid-cases name) [
      | inl h ↦ inl (h, ground (arith, valid_of name h), ground (arith, valid_of name h))
      | inr bad ↦ inr (rw bad refl, (new_error ("List name is invalid: " ⧺ name), rw bad refl))
    ]

  find-value :
      (ctx : Context) (name : String) (d : StorageIpData) (e : Env D) (b : Bool)
      → (ip_is_in_list db ctx name d e).0 ≡ ok b
      → b ≡ has e.state name d
  find-value ctx name d e b q = elim (find-cases ctx name d e) [
    | inl (is_name, value, state) ↦ elim (found-cases (find_script name) _ b _ (sym value ∙ q)) [
      | inl (row, is_row, is_true) ↦
          is_true ∙ sym (laws.find_row ctx name d e.state row is_name is_row)
      | inr (is_none, is_false) ↦ is_false ∙ sym (laws.find_none ctx name d e.state is_name is_none)
    ]
    | inr (kept, (x, failure)) ↦ absurd (cc (failure, q))
  ]

  module _ (ctx : Context) (name : String) (e : Env D) where
    abbrev queried : Env D
    queried = record e { state = (db.query ctx (all_script name) e.state).1 }

    all-queried : IsListName name → (ip_get_all_from_list db ctx name e).1.state ≡ queried.state
    unfolding ip_get_all_from_list guard
    all-queried h = elim (Result-cases (db.query ctx (all_script name) e.state).0) [
      | inl (rows, done) ↦ ground (arith, valid_of name h, scan_rows-state [] rows.scanned queried)
      | inr (x, failure) ↦ ground (arith, valid_of name h)
    ]

    all-state :
        (j : String) (d' : StorageIpData)
        → has (ip_get_all_from_list db ctx name e).1.state j d' ≡ has e.state j d'
    unfolding ip_get_all_from_list guard
    all-state j d' = elim (valid-cases name) [
      | inl h ↦ rw (all-queried h) (laws.all_keeps ctx name e.state j d' h)
      | inr bad ↦ rw bad refl
    ]

  -- Over a database that carries its statements out as documented, sqldb.go is a storage of two lists,
  -- whose entries are told apart by address and mask, as the columns of the tables compare them.
  pub sql-IsListing : (config : DbConfig) → IsListing (sql_storage db config) same has
  sql-IsListing config = record {
    holds_same = laws.has_same;
    find_value = λ ctx name d e b h q. find-value ctx name d e b q;
    find_keeps = λ ctx name d e j d'. elim (find-cases ctx name d e) [
      | inl (is_name, value, state) ↦ rw state (laws.find_keeps ctx name d e.state j d' is_name)
      | inr (kept, failure) ↦ rw kept refl
    ];
    get_all_keeps = λ ctx name e j d'. all-state ctx name e j d';
    add_only = λ ctx name d e j d' h. elim (add-cases ctx name d e) [
      | inl (is_name, value, state) ↦
          laws.insert_only ctx name d e.state j d' is_name (rw state at h)
      | inr (kept, failure) ↦ inl (rw kept at h)
    ];
    add_value = λ ctx name d e id j d' h. elim (add-cases ctx name d e) [
      | inl (is_name, value, state) ↦
          rw state (laws.insert_ok ctx name d e.state id j d' is_name (sym value ∙ h))
      | inr (kept, (x, failure)) ↦ absurd (cc (failure, h))
    ];
    remove_only = λ ctx name d e j d' h. elim (remove-cases ctx name d e) [
      | inl (is_name, gone, state) ↦
          laws.delete_only ctx name d e.state j d' is_name (rw state at h)
      | inr (kept, failure) ↦ rw kept at h
    ];
    remove_value = λ ctx name d e j d' h. elim (remove-cases ctx name d e) [
      | inl (is_name, gone, state) ↦
          let (n, q) = gone h in rw state (laws.delete_ok ctx name d e.state n j d' is_name q)
      | inr (kept, (x, failure)) ↦ absurd (cc (failure, h))
    ];
  }
