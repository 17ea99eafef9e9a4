-- ===== src/StorageSqlMock/Invariant.antt =====
-- The identifiers of the mock: each list's are distinct and below its next one, and every entry
-- stands under its own tag, whatever operations are called.
use golang_fin.Prelude.{
  ℕ, ◌+◌, ◌<◌, String, ◌≡◌, ◌≢◌, refl, List, [], ◌∷◌, arith, ◌=~◌, All, Bool-cases, inl, inr,
}
use golang_fin.Prelude.Int.{pos}
use golang_fin.Std.Map.{insert, delete}
use golang_fin.StorageData.{StorageIpData, Context}
use golang_fin.Exec.{Env}
use golang_fin.StorageSqlMock.{
  Mock, tag, init, ip_add_to_list, ip_remove_from_list, ip_is_in_list, ip_get_all_from_list,
}

abbrev pub Entries : Type 0
Entries = List (String × StorageIpData)

abbrev IsIssued : ℕ → StorageIpData → Type 0
IsIssued next d = (n : ℕ) × (d.id ≡ pos n) × (n < next)

-- The entries under their tags, with distinct identifiers below the next one.
abbrev pub IsKept : ℕ → Entries → Type 0
IsKept next [] = Unit
IsKept next ((k, d) ∷ l) =
    (k ≡ tag d) × IsIssued next d × All (λ e. d.id ≢ e.1.id) l × IsKept next l

pub record IsValid (m : Mock) : Type 0 where
  pub white : IsKept m.id_white m.whitelist
  pub black : IsKept m.id_black m.blacklist

grow-IsKept : (next : ℕ) (l : Entries) → IsKept next l → IsKept (next + 1) l
grow-IsKept next [] h = tt
grow-IsKept next ((k, d) ∷ l) (t, (n, e, lt), a, r) =
    (t, (n, e, omega arith), a, grow-IsKept next l r)

-- A new identifier differs from all that were issued.
fresh-All : (next : ℕ) (l : Entries) → IsKept next l → All (λ e. pos next ≢ e.1.id) l
fresh-All next [] h = tt
fresh-All next ((k, d) ∷ l) (t, (n, e, lt), a, r) = (λ q. absurd (ground arith), fresh-All next l r)

All-insert :
    (P : String × StorageIpData → Type 0) (k : String) (d : StorageIpData) (l : Entries)
    → P (k, d)
    → All P l
    → All P (insert k d l)
unfolding insert
All-insert P k d [] p h = (p, tt)
All-insert P k d ((j, c) ∷ l) p h = elim (Bool-cases (j =~ k)) [
  | inl here ↦ rw here (p, h.1)
  | inr later ↦ rw later (h.0, All-insert P k d l p h.1)
]

All-delete :
    (P : String × StorageIpData → Type 0) (k : String) (l : Entries) → All P l → All P (delete k l)
unfolding delete
All-delete P k [] h = tt
All-delete P k ((j, c) ∷ l) h = elim (Bool-cases (j =~ k)) [
  | inl here ↦ rw here (All-delete P k l h.1)
  | inr later ↦ rw later (h.0, All-delete P k l h.1)
]

insert-IsKept :
    (next : ℕ) (k : String) (d : StorageIpData) (l : Entries)
    → k ≡ tag d
    → d.id ≡ pos next
    → IsKept next l
    → IsKept (next + 1) (insert k d l)
unfolding insert
insert-IsKept next k d [] t i h = (t, (next, i, omega arith), tt, tt)
insert-IsKept next k d ((j, c) ∷ l) t i (t', (n, e, lt), a, r) = elim (Bool-cases (j =~ k)) [
  | inl here ↦ rw here (t, (next, i, omega arith), rw i (fresh-All next l r), grow-IsKept next l r)
  | inr later ↦ rw later (
    t',
    (n, e, omega arith),
    All-insert (λ x. c.id ≢ x.1.id) k d l (λ q. absurd (ground arith)) a,
    insert-IsKept next k d l t i r,
  )
]

delete-IsKept : (next : ℕ) (k : String) (l : Entries) → IsKept next l → IsKept next (delete k l)
unfolding delete
delete-IsKept next k [] h = tt
delete-IsKept next k ((j, c) ∷ l) (t, i, a, r) = elim (Bool-cases (j =~ k)) [
  | inl here ↦ rw here (delete-IsKept next k l r)
  | inr later ↦ rw later (t, i, All-delete (λ x. c.id ≢ x.1.id) k l a, delete-IsKept next k l r)
]

module _ (ctx : Context) (name : String) (d : StorageIpData) (e : Env Mock)
    (v : IsValid e.state) where
  add-IsValid : IsValid (ip_add_to_list ctx name d e).1.state
  unfolding ip_add_to_list
  add-IsValid = ground (
    arith,
    insert-IsKept e.state.id_white (tag d) (record d { id = pos e.state.id_white })
        e.state.whitelist refl refl v.white,
    insert-IsKept e.state.id_black (tag d) (record d { id = pos e.state.id_black })
        e.state.blacklist refl refl v.black,
  )

  remove-IsValid : IsValid (ip_remove_from_list ctx name d e).1.state
  unfolding ip_remove_from_list
  remove-IsValid = ground (
    arith,
    delete-IsKept e.state.id_white (tag d) e.state.whitelist v.white,
    delete-IsKept e.state.id_black (tag d) e.state.blacklist v.black,
  )

  find-IsValid : IsValid (ip_is_in_list ctx name d e).1.state
  unfolding ip_is_in_list
  find-IsValid = ground arith

  get_all-IsValid :
      (visit : List StorageIpData → List StorageIpData)
      → IsValid (ip_get_all_from_list visit ctx name e).1.state
  unfolding ip_get_all_from_list
  get_all-IsValid visit = ground arith

-- A method of the mock that may change its state.
pub data Call : Type 0 where
  init_again : Call
  add remove find : String → StorageIpData → Call
  get_all : String → Call

module _ (visit : List StorageIpData → List StorageIpData) where
  unfoldable pub call : Context → Call → Env Mock → Env Mock
  call ctx init_again e = (init ctx e).1
  call ctx (add name d) e = (ip_add_to_list ctx name d e).1
  call ctx (remove name d) e = (ip_remove_from_list ctx name d e).1
  call ctx (find name d) e = (ip_is_in_list ctx name d e).1
  call ctx (get_all name) e = (ip_get_all_from_list visit ctx name e).1

  unfoldable pub calls : List (Context × Call) → Env Mock → Env Mock
  calls [] e = e
  calls ((ctx, c) ∷ cs) e = calls cs (call ctx c e)

  call-IsValid :
      (ctx : Context) (c : Call) (e : Env Mock) → IsValid e.state → IsValid (call ctx c e).state
  unfolding call init
  call-IsValid ctx init_again e v = record { white = tt; black = tt }
  call-IsValid ctx (add name d) e v = add-IsValid ctx name d e v
  call-IsValid ctx (remove name d) e v = remove-IsValid ctx name d e v
  call-IsValid ctx (find name d) e v = find-IsValid ctx name d e v
  call-IsValid ctx (get_all name) e v = get_all-IsValid ctx name d' e v visit
    where
      d' : StorageIpData
      d' = record { ip = ""; mask = pos 0; id = pos 0 }

  calls-IsValid :
      (cs : List (Context × Call)) (e : Env Mock) → IsValid e.state → IsValid (calls cs e).state
  unfolding calls
  calls-IsValid [] e v = v
  calls-IsValid ((ctx, c) ∷ cs) e v = calls-IsValid cs (call ctx c e) (call-IsValid ctx c e v)

  init-IsValid : (ctx : Context) (e : Env Mock) → IsValid (init ctx e).1.state
  unfolding init
  init-IsValid ctx e = record { white = tt; black = tt }

  -- After `Init` and any sequence of calls the identifiers of each list are distinct and below the
  -- list's next one, and each entry stands under its own tag.
  pub init_calls-IsValid :
      (ctx : Context) (cs : List (Context × Call)) (e : Env Mock)
      → IsValid (calls cs (init ctx e).1).state
  init_calls-IsValid ctx cs e = calls-IsValid cs (init ctx e).1 (init-IsValid ctx e)
