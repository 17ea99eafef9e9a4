-- ===== src/StorageSqlMock/Bounds.antt =====
-- The identifiers that the mock counts up stay within Go's int.
use golang_fin.Prelude.{
  ℕ, ◌+◌, ◌≤◌, ◌<◌, ◌^◌, String, ◌≡◌, List, [], ◌∷◌, arith, length, ◌⊎◌, inl, inr,
}
use golang_fin.Prelude.Int.{ℤ, pos, IsInt64}
use golang_fin.Errors.{ok}
use golang_fin.StorageData.{StorageIpData, Context}
use golang_fin.Exec.{Env}
use golang_fin.StorageSqlMock.{
  Mock, init, ip_add_to_list, ip_remove_from_list, ip_is_in_list, ip_get_all_from_list,
}
use golang_fin.StorageSqlMock.Invariant.{Call, init_again, add, remove, find, get_all, call, calls}

-- How many identifiers have been given out
abbrev issued : Env Mock → ℕ
issued e = e.state.id_white + e.state.id_black

module _ (ctx : Context) (name : String) (d : StorageIpData) (e : Env Mock) where
  add-issued : issued (ip_add_to_list ctx name d e).1 ≤ issued e + 1
  unfolding ip_add_to_list
  add-issued = ground arith

  remove-issued : issued (ip_remove_from_list ctx name d e).1 ≤ issued e
  unfolding ip_remove_from_list
  remove-issued = ground arith

  find-issued : issued (ip_is_in_list ctx name d e).1 ≤ issued e
  unfolding ip_is_in_list
  find-issued = ground arith

  add-cases :
      (id : ℤ)
      → (ip_add_to_list ctx name d e).0 ≡ ok id
      → (id ≡ pos e.state.id_white) ⊎ (id ≡ pos e.state.id_black)
  unfolding ip_add_to_list
  add-cases id h = ground arith

  add-id :
      (id : ℤ) → (ip_add_to_list ctx name d e).0 ≡ ok id → (n : ℕ) × (id ≡ pos n) × (n ≤ issued e)
  add-id id h = elim (add-cases id h) [
    | inl white ↦ (e.state.id_white, white, omega arith)
    | inr black ↦ (e.state.id_black, black, omega arith)
  ]

module _ (visit : List StorageIpData → List StorageIpData) where
  get_all-issued :
      (ctx : Context) (name : String) (e : Env Mock)
      → issued (ip_get_all_from_list visit ctx name e).1 ≤ issued e
  unfolding ip_get_all_from_list
  get_all-issued ctx name e = ground arith

  call-issued :
      (ctx : Context) (c : Call) (e : Env Mock) → issued (call visit ctx c e) ≤ issued e + 1
  unfolding call init
  call-issued ctx init_again e = omega arith
  call-issued ctx (add name d) e = add-issued ctx name d e
  call-issued ctx (remove name d) e = ground (arith, remove-issued ctx name d e)
  call-issued ctx (find name d) e = ground (arith, find-issued ctx name d e)
  call-issued ctx (get_all name) e = ground (arith, get_all-issued ctx name e)

  calls-issued :
      (cs : List (Context × Call)) (e : Env Mock) → issued (calls visit cs e) ≤ issued e + length cs
  unfolding calls
  calls-issued [] e = omega arith
  calls-issued ((ctx, c) ∷ cs) e =
      ground (arith, calls-issued cs (call visit ctx c e), call-issued ctx c e)

  init-issued : (ctx : Context) (e : Env Mock) → issued (init ctx e).1 ≡ 0
  unfolding init
  init-issued ctx e = omega arith

  -- After `Init` and fewer than 2 ^ 63 calls, an addition that succeeds returns a number that is not
  -- below zero and at most the number of the calls, and so of 64 bits: the counters do not overflow.
  pub add-IsInt64 :
      (ctx ctx' : Context) (cs : List (Context × Call)) (e : Env Mock) (name : String)
      (d : StorageIpData) (id : ℤ)
      → length cs < 2 ^ 63
      → (ip_add_to_list ctx' name d (calls visit cs (init ctx e).1)).0 ≡ ok id
      → IsInt64 id × (n : ℕ) × (id ≡ pos n) × (n ≤ length cs)
  add-IsInt64 ctx ctx' cs e name d id few added =
      let (n, is_n, low) = add-id ctx' name d (calls visit cs (init ctx e).1) id added in
      let bound : n ≤ length cs =
        ground (arith, calls-issued cs (init ctx e).1, init-issued ctx e) in
      (rw is_n (omega arith), n, is_n, bound)
