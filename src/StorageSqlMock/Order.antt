-- ===== src/StorageSqlMock/Order.antt =====
-- The list that `IPGetAllFromList` of the mock returns: it does not depend on the order in which Go
-- visits a map.
use mathlib.Core.List.{
  Mem, Perm, Pairwise, Pairwise-cons, List-discrete, not-mem-nil, eq-or-mem_of_mem-cons,
}
use mathlib.Core.List.Perm
use native.Mathlib.Decide.{ℕ_discrete}
use mathlib.Core.Logic.Or
use mathlib.Core.HLevel.{¬_prop, hedberg}
use golang_fin.Prelude.{
  ℕ, String, ◌≡◌, ◌≢◌, sym, subst, false, List, [], ◌∷◌, arith, All, eq_iff, ◌=~◌, Bool-cases, inl,
  inr, if◌then◌else◌,
}
use golang_fin.Prelude.Int.{ℤ}
use golang_fin.Std.Map.{values}
use golang_fin.Std.Sort.{sort_stable}
use golang_fin.Std.Sort.Laws.{Apart, Ascending, sort-Ascending, sort-perm, sort-perm_invariant}
use golang_fin.Errors.{ok}
use golang_fin.StorageData.{StorageIpData, Context, white_list_name, black_list_name}
use golang_fin.Interfaces.Listing.{IsListName}
use golang_fin.Exec.{Env}
use golang_fin.StorageSqlMock.{Mock, id_less, ip_get_all_from_list}
use golang_fin.StorageSqlMock.Invariant.{Entries, IsKept, IsValid}

abbrev id_of : StorageIpData → ℤ
id_of d = d.id

String-discrete : Discrete String
String-discrete s t = elim (Bool-cases (s =~ t)) [
  | inl e ↦ yes ((eq_iff s t).0 e)
  | inr e ↦ no (λ p. absurd (ground (arith, eq_iff s t)))
]

String-set : IsSet String
String-set = hedberg String-discrete

entries-set : IsSet (List StorageIpData)
entries-set = hedberg (List-discrete entry_discrete)
  where
    int_discrete : Discrete ℤ
    int_discrete = hlevel ℕ_discrete

    entry_discrete : Discrete StorageIpData
    entry_discrete = hlevel (String-discrete, int_discrete)

-- The identifiers of the entries of a list differ pairwise.
apart_from :
    (d : StorageIpData) (l : Entries)
    → All (λ e. d.id ≢ e.1.id) l
    → (c : StorageIpData) → Mem c (values l)
    → d.id ≢ c.id
unfolding values
apart_from d [] h c m = absurd (not-mem-nil m)
apart_from d ((k, b) ∷ l) h c m =
    Or.«elim» ¬_prop (eq-or-mem_of_mem-cons m) (λ e. subst (λ x. d.id ≢ x.id) (sym e) h.0)
      (apart_from d l h.1 c)

values-Apart : (next : ℕ) (l : Entries) → IsKept next l → Pairwise (Apart id_of) (values l)
unfolding values
values-Apart next [] h = Pairwise.nil
values-Apart next ((k, d) ∷ l) (t, i, a, r) =
    Pairwise-cons.1 (apart_from d l a, values-Apart next l r)

-- What the mock returns for a list of entries: the entries of the list, ascending by identifier, and
-- nothing else has that property.
abbrev pub IsListed : Entries → List StorageIpData → Type 0
IsListed l ds = Perm ds (values l) × Ascending id_of ds

abbrev pub named : Mock → String → Entries
named m name = if name =~ white_list_name then m.whitelist else m.blacklist

module _ (visit visit' : List StorageIpData → List StorageIpData)
    (is_order : (l : List StorageIpData) → Perm (visit l) l)
    (is_order' : (l : List StorageIpData) → Perm (visit' l) l) where
  sorted-IsListed : (l : Entries) → IsListed l (sort_stable id_less (visit (values l)))
  sorted-IsListed l = (
    Perm.trans (sort-perm id_of (visit (values l))) (is_order (values l)),
    sort-Ascending id_of (visit (values l)),
  )

  sorted_eq :
      (next : ℕ) (l : Entries)
      → IsKept next l
      → sort_stable id_less (visit' (values l)) ≡ sort_stable id_less (visit (values l))
  sorted_eq next l h = sym (
      sort-perm_invariant id_of entries-set
        (Perm.trans (is_order (values l)) (Perm.symm (is_order' (values l))))
        ((Perm.Pairwise-iff (λ a b. ¬_prop) (λ a b n q. n (sym q)) (is_order (values l))).1
          (values-Apart next l h)))

  -- In a valid state, for a context that is not done and one of the two names, the mock returns the
  -- entries of the list, ascending by identifier, and leaves its state; what it returns does not
  -- depend on the order in which Go visits the map.
  pub get_all-IsListed :
      (ctx : Context) (name : String) (e : Env Mock)
      → IsValid e.state
      → ctx.done ≡ false
      → IsListName name
      → (ip_get_all_from_list visit' ctx name e ≡ ip_get_all_from_list visit ctx name e)
        × (ds : List StorageIpData) × (ip_get_all_from_list visit ctx name e ≡ (ok ds, e))
        × IsListed (named e.state name) ds
  unfolding ip_get_all_from_list
  get_all-IsListed ctx name e v live is_name = (
    ground (
      arith,
      sorted_eq e.state.id_white e.state.whitelist v.white,
      sorted_eq e.state.id_black e.state.blacklist v.black,
    ),
    sort_stable id_less (visit (values (named e.state name))),
    ground (arith, live, is_name, eq_iff name white_list_name, eq_iff name black_list_name),
    sorted-IsListed (named e.state name),
  )
