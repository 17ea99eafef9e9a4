-- ===== src/App/Service/Disjoint.antt =====
-- No entry is ever on both lists, whatever operations the application carries out
-- one after another. Calls that overlap are in Race.
use golang_fin.Prelude.{
  String, ◌≡◌, refl, Bool, true, false, List, [], ◌∷◌, arith, eq_iff, ◌⊎◌, inl, inr,
}
use golang_fin.StorageData.{StorageIpData, RequestAuth, Context, white_list_name, black_list_name}
use golang_fin.Exec.{Env}
use golang_fin.Interfaces.Listing.{IsListing}
use golang_fin.App.Subnets.{check_list_name}
use golang_fin.App.Service.{
  App, Stores, ip_is_in_subnet_check, check_request, check_ip_rate, check_password_rate,
  check_login_rate, clear_bucket_for_login, clear_bucket_for_ip, tick, ip_add_to_list,
  ip_remove_from_list, ip_is_in_list, ip_get_all_from_list,
}

-- A call of a method of the application that the server makes while it runs.
pub data Op : Type 0 where
  check : RequestAuth → Op
  clear_login clear_ip : String → Op
  flush : Op
  add remove find : String → StorageIpData → Op
  get_all : String → Op

module _ {S B : Type 0} (a : App S B) where
  -- the state after one call, whatever it returns
  unfoldable pub perform : Context → Op → Env (Stores S B) → Env (Stores S B)
  perform ctx (check req) e = (check_request a ctx req e).1
  perform ctx (clear_login login) e = (clear_bucket_for_login a ctx login e).1
  perform ctx (clear_ip ip) e = (clear_bucket_for_ip a ctx ip e).1
  perform ctx flush e = (tick a ctx e).1
  perform ctx (add name d) e = (ip_add_to_list a ctx name d e).1
  perform ctx (remove name d) e = (ip_remove_from_list a ctx name d e).1
  perform ctx (find name d) e = (ip_is_in_list a ctx name d e).1
  perform ctx (get_all name) e = (ip_get_all_from_list a ctx name e).1

  unfoldable pub perform_all : List (Context × Op) → Env (Stores S B) → Env (Stores S B)
  perform_all [] e = e
  perform_all ((ctx, op) ∷ ops) e = perform_all ops (perform ctx op e)

module _ {S B : Type 0} (a : App S B) (same : StorageIpData → StorageIpData → Bool)
    (holds : S → String → StorageIpData → Bool) (laws : IsListing a.storage same holds) where
  abbrev pub on : Env (Stores S B) → String → StorageIpData → Bool
  on e name d = holds e.state.storage name d

  -- No entry is on both lists.
  pub record IsDisjoint (e : Env (Stores S B)) : Type 0 where
    pub apart :
        (d : StorageIpData) → on e white_list_name d ≡ true → on e black_list_name d ≡ true → ⊥

  -- from `e` to `e'` nothing has been added to a list
  abbrev Shrinks : Env (Stores S B) → Env (Stores S B) → Type 0
  Shrinks e e' = (name : String) (d : StorageIpData) → on e' name d ≡ true → on e name d ≡ true

  abbrev inner : Env (Stores S B) → Env S
  inner e = record { state = e.state.storage; log = e.log }

  module _ (ctx : Context) (e : Env (Stores S B)) where
    find-Shrinks : (name : String) (d : StorageIpData) → Shrinks e (ip_is_in_list a ctx name d e).1
    unfolding ip_is_in_list check_list_name
    find-Shrinks name d j d' h = ground (arith, laws.find_keeps ctx name d (inner e) j d')

    get_all-Shrinks : (name : String) → Shrinks e (ip_get_all_from_list a ctx name e).1
    unfolding ip_get_all_from_list check_list_name
    get_all-Shrinks name j d' h = ground (arith, laws.get_all_keeps ctx name (inner e) j d')

    remove-Shrinks :
        (name : String) (d : StorageIpData) → Shrinks e (ip_remove_from_list a ctx name d e).1
    unfolding ip_remove_from_list check_list_name
    remove-Shrinks name d j d' h = ground (arith, laws.remove_only ctx name d (inner e) j d')

    clear_login-Shrinks : (login : String) → Shrinks e (clear_bucket_for_login a ctx login e).1
    unfolding clear_bucket_for_login
    clear_login-Shrinks login j d' h = ground arith

    clear_ip-Shrinks : (ip : String) → Shrinks e (clear_bucket_for_ip a ctx ip e).1
    unfolding clear_bucket_for_ip
    clear_ip-Shrinks ip j d' h = ground arith

    tick-Shrinks : Shrinks e (tick a ctx e).1
    unfolding tick
    tick-Shrinks j d' h = ground arith

    login_rate-Shrinks : (req : RequestAuth) → Shrinks e (check_login_rate a ctx req e).1
    unfolding check_login_rate check_password_rate check_ip_rate
    login_rate-Shrinks req j d' h = ground arith

    subnet-Shrinks : (name ip : String) → Shrinks e (ip_is_in_subnet_check a ctx name ip e).1
    unfolding ip_is_in_subnet_check check_list_name
    subnet-Shrinks name ip j d' h = ground (arith, laws.get_all_keeps ctx name (inner e) j d')

  check-Shrinks :
      (ctx : Context) (req : RequestAuth) (e : Env (Stores S B))
      → Shrinks e (check_request a ctx req e).1
  unfolding check_request
  check-Shrinks ctx req e j d' h =
      let e1 = (ip_is_in_subnet_check a ctx "blacklist" req.ip e).1 in
      let e2 = (ip_is_in_subnet_check a ctx "whitelist" req.ip e1).1 in
      ground (
        arith,
        subnet-Shrinks ctx e "blacklist" req.ip j d',
        subnet-Shrinks ctx e1 "whitelist" req.ip j d',
        login_rate-Shrinks ctx e2 req j d',
      )

  module _ (ctx : Context) (name : String) (d : StorageIpData) (e : Env (Stores S B)) where
    -- An addition reaches the list only when the other list has been found not to hold the entry.
    add_only :
        (j : String) (d' : StorageIpData)
        → on (ip_add_to_list a ctx name d e).1 j d' ≡ true
        → (on e j d' ≡ true)
          ⊎ ((name ≡ j)
              × (same d d' ≡ true)
              × (((name ≡ white_list_name) × (on e black_list_name d ≡ false))
                  ⊎ ((name ≡ black_list_name) × (on e white_list_name d ≡ false))))
    unfolding ip_add_to_list
    add_only j d' h =
        let white = (a.storage.ip_is_in_list ctx white_list_name d (inner e)).1 in
        let black = (a.storage.ip_is_in_list ctx black_list_name d (inner e)).1 in
        ground (
          arith,
          eq_iff name white_list_name,
          eq_iff name black_list_name,
          laws.find_value ctx white_list_name d (inner e) false (inl refl),
          laws.find_value ctx black_list_name d (inner e) false (inr refl),
          laws.find_keeps ctx white_list_name d (inner e) j d',
          laws.find_keeps ctx black_list_name d (inner e) j d',
          laws.add_only ctx name d white j d',
          laws.add_only ctx name d black j d',
        )

  pub shrunk-IsDisjoint : (e e' : Env (Stores S B)) → Shrinks e e' → IsDisjoint e → IsDisjoint e'
  shrunk-IsDisjoint e e' s h = record {
    apart = λ d w b. h.apart d (s white_list_name d w) (s black_list_name d b);
  }

  add-IsDisjoint :
      (ctx : Context) (name : String) (d : StorageIpData) (e : Env (Stores S B))
      → IsDisjoint e
      → IsDisjoint (ip_add_to_list a ctx name d e).1
  add-IsDisjoint ctx name d e h = record {
    apart = λ d' w b. ground (
      arith,
      h.apart d',
      eq_iff white_list_name black_list_name,
      add_only ctx name d e white_list_name d' w,
      add_only ctx name d e black_list_name d' b,
      laws.holds_same e.state.storage white_list_name d d',
      laws.holds_same e.state.storage black_list_name d d',
    );
  }

  pub perform-IsDisjoint :
      (ctx : Context) (op : Op) (e : Env (Stores S B))
      → IsDisjoint e
      → IsDisjoint (perform a ctx op e)
  unfolding perform
  perform-IsDisjoint ctx (check req) e h =
      shrunk-IsDisjoint e (check_request a ctx req e).1 (check-Shrinks ctx req e) h
  perform-IsDisjoint ctx (clear_login l) e h =
      shrunk-IsDisjoint e (clear_bucket_for_login a ctx l e).1 (clear_login-Shrinks ctx e l) h
  perform-IsDisjoint ctx (clear_ip ip) e h =
      shrunk-IsDisjoint e (clear_bucket_for_ip a ctx ip e).1 (clear_ip-Shrinks ctx e ip) h
  perform-IsDisjoint ctx flush e h = shrunk-IsDisjoint e (tick a ctx e).1 (tick-Shrinks ctx e) h
  perform-IsDisjoint ctx (add name d) e h = add-IsDisjoint ctx name d e h
  perform-IsDisjoint ctx (remove name d) e h =
      shrunk-IsDisjoint e (ip_remove_from_list a ctx name d e).1 (remove-Shrinks ctx e name d) h
  perform-IsDisjoint ctx (find name d) e h =
      shrunk-IsDisjoint e (ip_is_in_list a ctx name d e).1 (find-Shrinks ctx e name d) h
  perform-IsDisjoint ctx (get_all name) e h =
      shrunk-IsDisjoint e (ip_get_all_from_list a ctx name e).1 (get_all-Shrinks ctx e name) h

  -- Over any storage that keeps its lists as it should, lists with no entry in common have none in
  -- common after any sequence of calls, which may fail in any place.
  pub perform_all-IsDisjoint :
      (ops : List (Context × Op)) (e : Env (Stores S B))
      → IsDisjoint e
      → IsDisjoint (perform_all a ops e)
  unfolding perform_all
  perform_all-IsDisjoint [] e h = h
  perform_all-IsDisjoint ((ctx, op) ∷ ops) e h =
      perform_all-IsDisjoint ops (perform a ctx op e) (perform-IsDisjoint ctx op e h)
