-- ===== src/SqlDb/Memory/Laws.antt =====
-- The database in memory carries its statements out as `IsSql` says.
use golang_fin.Prelude.{
  ◌⊎◌, ◌↔◌, Option-cases, String, ◌≡◌, refl, true, false, arith, ◌=~◌, ◌&&◌, inl, inr,
  if◌then◌else◌, eq_iff, [], ◌∷◌, length,
}
use golang_fin.Prelude.Int.{pos, eqb_ℤ_iff}
use golang_fin.Errors.{ok, err, sql_no_rows}
use golang_fin.StorageData.{StorageIpData, Context}
use golang_fin.Interfaces.Listing.{IsListName}
use golang_fin.SqlDb.Client.{
  IsSql, insert_script, delete_script, find_script, all_script, entry_args,
}
use golang_fin.SqlDb.Memory.{
  address_of, inet, same_row, Rows, has_row, delete_rows, table_of, not_inet, insert_row,
  remove_row, find_row, rows_of, all_rows, memory_db,
}

module _ (d d' : StorageIpData) where
  same_row_iff :
      (same_row d d' ≡ true)
      ↔ ((address_of (inet d.ip) ≡ address_of (inet d'.ip)) × (d.mask ≡ d'.mask))
  unfolding same_row
  same_row_iff = ground (arith, eqb_ℤ_iff d.mask d'.mask)

same_row-left : (c d d' : StorageIpData) → same_row d d' ≡ true → same_row c d ≡ same_row c d'
same_row-left c d d' h = ground (arith, same_row_iff d d', same_row_iff c d, same_row_iff c d', h)

has_row-same :
    (rows : Rows) (name : String) (d d' : StorageIpData)
    → same_row d d' ≡ true
    → has_row rows name d ≡ has_row rows name d'
unfolding has_row
has_row-same [] name d d' h = refl
has_row-same ((t, c) ∷ rows) name d d' h =
    ground (arith, same_row-left c d d' h, has_row-same rows name d d' h)

has_row-delete :
    (rows : Rows) (name j : String) (d d' : StorageIpData)
    → has_row (delete_rows name d rows) j d'
      ≡ (if name =~ j && same_row d d' then false else has_row rows j d')
unfolding has_row delete_rows
has_row-delete [] name j d d' = ground arith
has_row-delete ((t, c) ∷ rows) name j d d' = ground (
  arith,
  has_row-delete rows name j d d',
  eq_iff t name,
  eq_iff t j,
  eq_iff name j,
  same_row_iff d d',
  same_row_iff c d,
  same_row_iff c d',
)

abbrev keyed : StorageIpData → StorageIpData
keyed d = record d { id = pos 0 }

-- What a statement about one of the two tables does, for an address that can be read and for one
-- that cannot
module _ (ctx : Context) (name : String) (d : StorageIpData) (rows : Rows) where
  insert-cases :
      IsListName name
      → (insert_row ctx (insert_script name) (entry_args d) rows
          ≡ (ok (pos (length rows)), (name, record d { id = pos (length rows) }) ∷ rows))
        ⊎ (insert_row ctx (insert_script name) (entry_args d) rows ≡ (err not_inet, rows))
  unfolding insert_row table_of
  insert-cases h = elim (Option-cases (inet d.ip)) [
    | inl q ↦ inr (elim h [ inl w ↦ rw w (ground (arith, q)) | inr b ↦ rw b (ground (arith, q)) ])
    | inr (n, q) ↦
        inl (elim h [ inl w ↦ rw w (ground (arith, q)) | inr b ↦ rw b (ground (arith, q)) ])
  ]

  remove-cases :
      IsListName name
      → (remove_row ctx (delete_script name) (entry_args d) rows ≡ (
        ok (ok (if has_row rows name (keyed d) then pos 1 else pos 0)),
        delete_rows name (keyed d) rows,
      ))
        ⊎ (remove_row ctx (delete_script name) (entry_args d) rows ≡ (err not_inet, rows))
  unfolding remove_row table_of
  remove-cases h = elim (Option-cases (inet d.ip)) [
    | inl q ↦ inr (elim h [ inl w ↦ rw w (ground (arith, q)) | inr b ↦ rw b (ground (arith, q)) ])
    | inr (n, q) ↦
        inl (elim h [ inl w ↦ rw w (ground (arith, q)) | inr b ↦ rw b (ground (arith, q)) ])
  ]

  find-cases :
      IsListName name
      → (find_row ctx (find_script name) (entry_args d) rows
          ≡ (if has_row rows name (keyed d) then ok (pos 0, d.ip) else err sql_no_rows, rows))
        ⊎ (find_row ctx (find_script name) (entry_args d) rows ≡ (err not_inet, rows))
  unfolding find_row table_of
  find-cases h = elim (Option-cases (inet d.ip)) [
    | inl q ↦ inr (elim h [ inl w ↦ rw w (ground (arith, q)) | inr b ↦ rw b (ground (arith, q)) ])
    | inr (n, q) ↦
        inl (elim h [ inl w ↦ rw w (ground (arith, q)) | inr b ↦ rw b (ground (arith, q)) ])
  ]

  all-known :
      IsListName name
      → all_rows ctx (all_script name) rows
        ≡ (ok (record { scanned = rows_of name rows; final = ok tt }), rows)
  unfolding all_rows table_of
  all-known (inl w) = rw w refl
  all-known (inr b) = rw b refl

  keyed-same : has_row rows name (keyed d) ≡ has_row rows name d
  keyed-same = has_row-same rows name (keyed d) d ((same_row_iff (keyed d) d).1 (refl, refl))

pub memory-IsSql : IsSql memory_db same_row has_row
unfolding has_row same_row
memory-IsSql = record {
  same_refl = λ d. (same_row_iff d d).1 (refl, refl);
  same_sym = λ d d' h. ground (arith, same_row_iff d d', same_row_iff d' d, h);
  same_trans =
      λ d d' c h k. ground (arith, same_row_iff d d', same_row_iff d' c, same_row_iff d c, h, k);
  has_same = λ s name d d' h. has_row-same s name d d' h;
  insert_ok = λ ctx name d s id j d' n h. elim (insert-cases ctx name d s n) [
    | inl q ↦ rw q refl
    | inr q ↦ absurd (cc (q, h))
  ];
  insert_only = λ ctx name d s j d' n h. elim (insert-cases ctx name d s n) [
    | inl q ↦ ground (arith, eq_iff name j, (rw q at h))
    | inr q ↦ inl (rw q at h)
  ];
  delete_ok = λ ctx name d s n j d' is_name h. elim (remove-cases ctx name d s is_name) [
    | inl q ↦ rw q (has_row-delete s name j _ d')
    | inr q ↦ absurd (cc (q, h))
  ];
  delete_only = λ ctx name d s j d' n h. elim (remove-cases ctx name d s n) [
    | inl q ↦ ground (arith, has_row-delete s name j (keyed d) d', (rw q at h))
    | inr q ↦ rw q at h
  ];
  find_row = λ ctx name d s row n h. elim (find-cases ctx name d s n) [
    | inl q ↦ ground (arith, (rw q at h), keyed-same ctx name d s)
    | inr q ↦ absurd (cc (q, h))
  ];
  find_none = λ ctx name d s n h. elim (find-cases ctx name d s n) [
    | inl q ↦ ground (arith, (rw q at h), keyed-same ctx name d s)
    | inr q ↦ ground (arith, (rw q at h))
  ];
  find_keeps = λ ctx name d s j d' n. elim (find-cases ctx name d s n) [
    | inl q ↦ rw q refl
    | inr q ↦ rw q refl
  ];
  all_keeps = λ ctx name s j d' n.
      rw (all-known ctx name (record { ip = ""; mask = pos 0; id = pos 0 }) s n) refl;
}
