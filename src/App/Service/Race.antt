-- ===== src/App/Service/Race.antt =====
-- internal/app/app.go: two calls of `IPAddToList` at the same time. The server runs each request in
-- its own goroutine, and nothing holds the storage between the look at the second list and the
-- addition to the first one, so that another request's steps may come between them.
use golang_fin.Prelude.{
  String, ◌≡◌, refl, Bool, true, false, [], ◌∷◌, arith, inl, if◌then◌else◌, ◌=~◌, ◌&&◌, eq_iff,
}
use golang_fin.Prelude.Int.{ℤ}
use golang_fin.Std.Strconv.{itoa}
use golang_fin.Errors.{ok}
use golang_fin.StorageData.{StorageIpData, Context, string_build, white_list_name, black_list_name}
use golang_fin.Exec.{Exec, Env, pure, fail, lift, catch, log_info, ◌>>=◌, ◌>>◌, bind-ok}
use golang_fin.Interfaces.Listing.{IsListing}
use golang_fin.App.Validate.{simple_ip_data_validate}
use golang_fin.App.Service.{
  App, Stores, in_storage, fail_with, second_list, in_second_list, ip_add_to_list,
}
use golang_fin.App.Service.Disjoint.{on}

module _ {S B : Type 0} (a : App S B) (ctx : Context) (listname : String)
    (ip_data : StorageIpData) where
  open a use {storage}

  -- `IPAddToList` up to the branch on what the second list holds
  unfoldable pub check_second : Exec (Stores S B) Unit
  check_second = do
    catch (lift (simple_ip_data_validate ip_data false)) (fail_with "IPAddToList validation failed")
    second ← lift (second_list listname)
    found ←
        catch (in_storage (storage.ip_is_in_list ctx second ip_data))
          (fail_with "IPAddToList validation in second list failed")
    if found then fail (in_second_list listname) else pure tt

  -- `IPAddToList` from the call of the storage on
  unfoldable pub add_checked : Exec (Stores S B) ℤ
  add_checked = do
    id ←
        catch (in_storage (storage.ip_add_to_list ctx listname ip_data))
          (fail_with "IPAddToList IP storage error")
    log_info (
        string_build
          ("IP added to " ∷ listname ∷ "(IP: " ∷ ip_data.ip ∷ "/" ∷ itoa ip_data.mask ∷ ")" ∷ []))
    pure id

  -- The two halves in a row are the method.
  check_then_add :
      (e : Env (Stores S B))
      → ip_add_to_list a ctx listname ip_data e ≡ (check_second >> add_checked) e
  unfolding ip_add_to_list check_second add_checked
  check_then_add e = grind arith

-- One request adds an entry to the white list and another to the black list, and both look at the
-- second list before either of them adds.
unfoldable pub race :
    {S B : Type 0} → App S B → Context → Context → StorageIpData → Exec (Stores S B) (ℤ × ℤ)
race a ctx ctx' d = do
  check_second a ctx white_list_name d
  check_second a ctx' black_list_name d
  id ← add_checked a ctx white_list_name d
  id' ← add_checked a ctx' black_list_name d
  pure (id, id')

module _ {S B : Type 0} (a : App S B) (same : StorageIpData → StorageIpData → Bool)
    (holds : S → String → StorageIpData → Bool) (laws : IsListing a.storage same holds) where
  abbrev held : Env (Stores S B) → String → StorageIpData → Bool
  held = on a same holds laws

  module _ (ctx : Context) (name : String) (d : StorageIpData) (e : Env (Stores S B)) where
    abbrev inner : Env S
    inner = record { state = e.state.storage; log = e.log }

    add_checked-holds :
        (id : ℤ) (j : String) (d' : StorageIpData)
        → (add_checked a ctx name d e).0 ≡ ok id
        → held (add_checked a ctx name d e).1 j d'
          ≡ (if name =~ j && same d d' then true else held e j d')
    unfolding add_checked
    add_checked-holds id j d' h = ground (arith, laws.add_value ctx name d inner id j d')

    add-holds :
        (id : ℤ)
        → same d d ≡ true
        → (ip_add_to_list a ctx name d e).0 ≡ ok id
        → held (ip_add_to_list a ctx name d e).1 name d ≡ true
    unfolding ip_add_to_list second_list
    add-holds id s h =
        let white = (a.storage.ip_is_in_list ctx white_list_name d inner).1 in
        let black = (a.storage.ip_is_in_list ctx black_list_name d inner).1 in
        ground (
          arith,
          eq_iff name name,
          laws.add_value ctx name d white id name d,
          laws.add_value ctx name d black id name d,
        )

  -- An entry of the white list is not added to the black list.
  held-refused :
      (ctx : Context) (d : StorageIpData) (e : Env (Stores S B)) (id : ℤ)
      → held e white_list_name d ≡ true
      → ¬ ((ip_add_to_list a ctx black_list_name d e).0 ≡ ok id)
  unfolding ip_add_to_list second_list
  held-refused ctx d e id w h = ground (
    arith,
    laws.find_value ctx white_list_name d (inner ctx black_list_name d e) false (inl refl),
  )

  pub race-on_both :
      (ctx ctx' : Context) (d : StorageIpData) (e : Env (Stores S B)) (ids : ℤ × ℤ)
      → same d d ≡ true
      → (race a ctx ctx' d e).0 ≡ ok ids
      → ((c : Context) (name : String) (e' : Env (Stores S B))
          → ip_add_to_list a c name d e' ≡ (check_second a c name d >> add_checked a c name d) e')
        × (held (race a ctx ctx' d e).1 white_list_name d ≡ true)
        × (held (race a ctx ctx' d e).1 black_list_name d ≡ true)
        × ((id : ℤ)
            → ¬ (
                ((ip_add_to_list a ctx white_list_name d >> ip_add_to_list a ctx' black_list_name d)
                  e).0
                ≡ ok id))
  unfolding race
  race-on_both ctx ctx' d e ids s h =
      let e1 = (check_second a ctx white_list_name d e).1 in
      let e2 = (check_second a ctx' black_list_name d e1).1 in
      let e3 = (add_checked a ctx white_list_name d e2).1 in
      (
        λ c name. check_then_add a c name d,
        ground (
          arith,
          add_checked-holds ctx white_list_name d e2 ids.0 white_list_name d,
          add_checked-holds ctx' black_list_name d e3 ids.1 white_list_name d,
        ),
        ground (arith, add_checked-holds ctx' black_list_name d e3 ids.1 black_list_name d),
        λ id' k.
            let (id, q, r) =
              bind-ok (ip_add_to_list a ctx white_list_name d)
                (λ _. ip_add_to_list a ctx' black_list_name d) e id' k in
            held-refused ctx' d (ip_add_to_list a ctx white_list_name d e).1 id'
              (add-holds ctx white_list_name d e id s q) r,
      )
