-- ===== src/StorageSqlMock/Tests.antt =====
-- Runs of the mock, and its theorems at the states of these runs.
use mathlib.Core.List.{reverse, reverse_perm}
use mathlib.Core.List.Perm
use golang_fin.Prelude.{ℕ, ◌≤◌, String, ◌≡◌, refl, false, List, [], ◌∷◌, inl, length, arith}
use golang_fin.Prelude.Int.{pos, IsInt64}
use golang_fin.Std.Map.{lookup, insert, delete, values}
use golang_fin.Std.Sort.{insert_stable, sort_stable}
use golang_fin.Std.Strconv.{itoa}
use golang_fin.Errors.{ok, err, no_record}
use golang_fin.StorageData.{StorageIpData, Context}
use golang_fin.Exec.{Env}
use golang_fin.StorageSqlMock.{
  Mock, mock_storage, tag, init, ip_add_to_list, ip_remove_from_list, ip_is_in_list,
  ip_get_all_from_list,
}
use golang_fin.Interfaces.Listing.{IsListing}
use golang_fin.StorageSqlMock.Listing.{same_tag, holds, mock-IsListing}
use golang_fin.StorageSqlMock.Bounds.{add-IsInt64}
use golang_fin.StorageSqlMock.Invariant.{
  IsValid, Call, add, remove, call, calls, init_calls-IsValid,
}
use golang_fin.StorageSqlMock.Order.{IsListed, named, get_all-IsListed}

abbrev live : Context
live = record { done = false }

abbrev net : String → StorageIpData
net ip = record { ip = ip; mask = pos 24; id = pos 0 }

abbrev empty : Env Mock
empty = record {
  state = record { whitelist = []; blacklist = []; id_white = 7; id_black = 7 };
  log = [];
}

abbrev changes : List (Context × Call)
changes =
    (live, add "whitelist" (net "10.0.0.0"))
    ∷ (live, add "whitelist" (net "10.0.1.0"))
    ∷ (live, add "whitelist" (net "10.0.0.0"))
    ∷ (live, remove "whitelist" (net "10.0.1.0"))
    ∷ (live, add "blacklist" (net "10.0.1.0"))
    ∷ []

runs : Unit {0}
unfolding call calls init ip_add_to_list ip_remove_from_list ip_is_in_list ip_get_all_from_list tag
    itoa insert delete lookup values sort_stable insert_stable
runs = tt

abbrev changed : Env Mock
changed = calls (λ l. l) changes (init live empty).1

-- An entry that is added again gets a new identifier.
again_is_new :
    (ip_get_all_from_list (λ l. l) live "whitelist" changed).0
    ≡ ok (record { ip = "10.0.0.0"; mask = pos 24; id = pos 2 } ∷ [])
unfolding runs
again_is_new = refl

-- An entry that is not there cannot be removed.
removal_of_none : (ip_remove_from_list live "blacklist" (net "10.0.0.0") changed).0 ≡ err no_record
unfolding runs
removal_of_none = refl

init_calls-IsValid_example : IsValid (calls (λ l. l) changes (init live empty).1).state
init_calls-IsValid_example = init_calls-IsValid (λ l. l) live changes empty

abbrev two_entries : Env Mock
two_entries =
    calls (λ l. l)
      ((live, add "whitelist" (net "10.0.0.0")) ∷ (live, add "whitelist" (net "10.0.1.0")) ∷ [])
      (init live empty).1

get_all-IsListed_example :
    (ip_get_all_from_list reverse live "whitelist" two_entries
      ≡ ip_get_all_from_list (λ l. l) live "whitelist" two_entries)
    × (ds : List StorageIpData) × (ip_get_all_from_list (λ l. l) live "whitelist" two_entries
        ≡ (ok ds, two_entries))
    × IsListed (named two_entries.state "whitelist") ds
get_all-IsListed_example =
    get_all-IsListed (λ l. l) reverse (λ l. Perm.refl l) (λ l. reverse_perm l) live "whitelist"
      two_entries
      (init_calls-IsValid (λ l. l) live
        ((live, add "whitelist" (net "10.0.0.0")) ∷ (live, add "whitelist" (net "10.0.1.0")) ∷ [])
        empty)
      refl (inl refl)

mock-IsListing_example : IsListing (mock_storage reverse) same_tag holds
mock-IsListing_example = mock-IsListing reverse

added_again : (ip_add_to_list live "whitelist" (net "10.0.2.0") changed).0 ≡ ok (pos 3)
unfolding runs
added_again = refl

add-IsInt64_example : IsInt64 (pos 3) × (n : ℕ) × (pos 3 ≡ pos n) × (n ≤ length changes)
add-IsInt64_example =
    add-IsInt64 (λ l. l) live live changes empty "whitelist" (net "10.0.2.0") (pos 3) (omega arith)
      added_again
