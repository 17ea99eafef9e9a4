-- ===== src/StorageSqlMock/Listing.antt =====
-- The mock fills the interface of a storage of lists: an entry is on a list if its tag is a key.
use golang_fin.Prelude.{
  ℕ, ◌↔◌, ◌≡◌, true, some, none, String, Bool, false, arith, ◌=~◌, if◌then◌else◌, eq_iff, List,
}
use golang_fin.Prelude.Int.{pos}
use golang_fin.Std.Map.{lookup, insert, delete, map_laws}
use golang_fin.StorageData.{StorageIpData, white_list_name, black_list_name}
use golang_fin.Interfaces.Listing.{IsListing}
use golang_fin.StorageSqlMock.{
  Mock, tag, is_some, ip_add_to_list, ip_remove_from_list, ip_is_in_list, ip_get_all_from_list,
  mock_storage,
}

abbrev pub same_tag : StorageIpData → StorageIpData → Bool
same_tag d d' = tag d =~ tag d'

abbrev pub holds : Mock → String → StorageIpData → Bool
holds m name d =
    if name =~ white_list_name
    then is_some (lookup (tag d) m.whitelist)
    else if name =~ black_list_name
    then is_some (lookup (tag d) m.blacklist)
    else false

-- The two lists after an insertion and after a deletion.
module _ (d d' : StorageIpData) (m : Mock) where
  abbrev with_id : ℕ → StorageIpData
  with_id n = record d { id = pos n }

  inserted :
      (lookup (tag d') (insert (tag d) (with_id m.id_white) m.whitelist)
        ≡ (if tag d =~ tag d' then some (with_id m.id_white) else lookup (tag d') m.whitelist))
      × (lookup (tag d') (insert (tag d) (with_id m.id_black) m.blacklist)
          ≡ (if tag d =~ tag d' then some (with_id m.id_black) else lookup (tag d') m.blacklist))
  inserted = (simp map_laws, simp map_laws)

  deleted :
      (lookup (tag d') (delete (tag d) m.whitelist)
        ≡ (if tag d =~ tag d' then none else lookup (tag d') m.whitelist))
      × (lookup (tag d') (delete (tag d) m.blacklist)
          ≡ (if tag d =~ tag d' then none else lookup (tag d') m.blacklist))
  deleted = (simp map_laws, simp map_laws)

-- What the tests of two names tell; `ground` reads it as facts.
abbrev Told : String → String → Type 0
Told name j =
    ((name =~ white_list_name ≡ true) ↔ (name ≡ white_list_name))
    × ((name =~ black_list_name ≡ true) ↔ (name ≡ black_list_name))
    × ((j =~ white_list_name ≡ true) ↔ (j ≡ white_list_name))
    × ((j =~ black_list_name ≡ true) ↔ (j ≡ black_list_name))
    × ((name =~ j ≡ true) ↔ (name ≡ j))

told : (name j : String) → Told name j
told name j = (
  eq_iff name white_list_name,
  eq_iff name black_list_name,
  eq_iff j white_list_name,
  eq_iff j black_list_name,
  eq_iff name j,
)

module _ (visit : List StorageIpData → List StorageIpData) where
  -- The mock is a storage of two lists whose entries are told apart by their tags, in whatever order
  -- Go visits a map.
  pub mock-IsListing : IsListing (mock_storage visit) same_tag holds
  unfolding ip_is_in_list ip_get_all_from_list ip_add_to_list ip_remove_from_list
  mock-IsListing = record {
    holds_same = λ s name d d' h. ground (arith, eq_iff (tag d) (tag d'));
    find_value = λ ctx name d e b n h. ground (arith, told name name);
    find_keeps = λ ctx name d e j d'. ground arith;
    get_all_keeps = λ ctx name e j d'. ground arith;
    add_only = λ ctx name d e j d' h. ground (arith, told name j, inserted d d' e.state);
    add_value = λ ctx name d e id j d' h. ground (arith, told name j, inserted d d' e.state);
    remove_only = λ ctx name d e j d' h. ground (arith, told name j, deleted d d' e.state);
    remove_value = λ ctx name d e j d' h. ground (arith, told name j, deleted d d' e.state);
  }
