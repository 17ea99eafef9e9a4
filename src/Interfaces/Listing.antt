-- ===== src/Interfaces/Listing.antt =====
-- What the application relies on of a `Storage`: a view of its state that tells which entries each
-- list holds. A call that fails may have been carried out or not.
use golang_fin.Prelude.{String, ◌≡◌, Bool, true, false, ◌⊎◌, ◌=~◌, ◌&&◌, if◌then◌else◌}
use golang_fin.Prelude.Int.{ℤ}
use golang_fin.Errors.{ok}
use golang_fin.StorageData.{StorageIpData, Context, white_list_name, black_list_name}
use golang_fin.Exec.{Env}
use golang_fin.Interfaces.{Storage}

abbrev pub IsListName : String → Type 0
IsListName name = (name ≡ white_list_name) ⊎ (name ≡ black_list_name)

-- `same` tells the entries apart that the lists tell apart.
pub record IsListing {S : Type 0} (st : Storage S) (same : StorageIpData → StorageIpData → Bool)
    (holds : S → String → StorageIpData → Bool) : Type 0 where
  pub holds_same :
      (s : S) (name : String) (d d' : StorageIpData)
      → same d d' ≡ true
      → holds s name d ≡ holds s name d'
  pub find_value :
      (ctx : Context) (name : String) (d : StorageIpData) (e : Env S) (b : Bool)
      → IsListName name
      → (st.ip_is_in_list ctx name d e).0 ≡ ok b
      → b ≡ holds e.state name d
  pub find_keeps :
      (ctx : Context) (name : String) (d : StorageIpData) (e : Env S) (j : String)
      (d' : StorageIpData)
      → holds (st.ip_is_in_list ctx name d e).1.state j d' ≡ holds e.state j d'
  pub get_all_keeps :
      (ctx : Context) (name : String) (e : Env S) (j : String) (d' : StorageIpData)
      → holds (st.ip_get_all_from_list ctx name e).1.state j d' ≡ holds e.state j d'
  pub add_only :
      (ctx : Context) (name : String) (d : StorageIpData) (e : Env S) (j : String)
      (d' : StorageIpData)
      → holds (st.ip_add_to_list ctx name d e).1.state j d' ≡ true
      → (holds e.state j d' ≡ true) ⊎ ((name ≡ j) × (same d d' ≡ true))
  pub add_value :
      (ctx : Context) (name : String) (d : StorageIpData) (e : Env S) (id : ℤ) (j : String)
      (d' : StorageIpData)
      → (st.ip_add_to_list ctx name d e).0 ≡ ok id
      → holds (st.ip_add_to_list ctx name d e).1.state j d'
        ≡ (if name =~ j && same d d' then true else holds e.state j d')
  pub remove_only :
      (ctx : Context) (name : String) (d : StorageIpData) (e : Env S) (j : String)
      (d' : StorageIpData)
      → holds (st.ip_remove_from_list ctx name d e).1.state j d' ≡ true
      → holds e.state j d' ≡ true
  pub remove_value :
      (ctx : Context) (name : String) (d : StorageIpData) (e : Env S) (j : String)
      (d' : StorageIpData)
      → (st.ip_remove_from_list ctx name d e).0 ≡ ok tt
      → holds (st.ip_remove_from_list ctx name d e).1.state j d'
        ≡ (if name =~ j && same d d' then false else holds e.state j d')
