-- ===== src/App/Service.antt =====
-- internal/app/app.go: the methods of `App`, over any two storages that fill the interfaces.
pub mod Gate
pub mod Check
pub mod Limit
pub mod Window
pub mod Verdict
pub mod Reset
pub mod Disjoint
pub mod Race
pub mod Cleared
pub mod Failures
mod Tests
mod FailureTests
use golang_fin.Prelude.{String, Bool, true, false, List, [], ◌∷◌, ◌=~◌, ◌⧺◌, if◌then◌else◌}
use golang_fin.Prelude.Int.{ℤ, pos, ltb_ℤ}
use golang_fin.Std.Strconv.{itoa}
use golang_fin.Std.Net.{parse_ip}
use golang_fin.Errors.{GoError, Result, ok, err, error_text, bad_list_type, ip_in_bl, ip_in_wl}
use golang_fin.StorageData.{
  StorageIpData, RequestAuth, Limits, Context, string_build, white_list_name, black_list_name,
}
use golang_fin.Exec.{
  Exec, Env, pure, fail, lift, catch, log_info, log_error, log_fail, zoom, ◌>>=◌, ◌>>◌,
}
use golang_fin.Interfaces.{Storage, BucketStorage, Application}
use golang_fin.App.Validate.{simple_ip_data_validate}
use golang_fin.App.Subnets.{check_list_name, scan_subnets}

-- The state behind `App.storage` and `App.bucketStorage`.
pub record Stores (S B : Type 0) : Type 0 where
  pub storage : S
  pub buckets : B

-- The fields of `App` that its methods read; the period of the ticker is chosen by the clock that
-- makes it tick.
pub record App (S B : Type 0) : Type 0 where
  pub storage : Storage S
  pub bucket_storage : BucketStorage B
  pub limits : Limits

abbrev pub in_storage : {S B A : Type 0} → Exec S A → Exec (Stores S B) A
in_storage = zoom (λ s. s.storage) (λ s x. record { storage = x; buckets = s.buckets })

abbrev pub in_buckets : {S B A : Type 0} → Exec B A → Exec (Stores S B) A
in_buckets = zoom (λ s. s.buckets) (λ s x. record { storage = s.storage; buckets = x })

-- A failure whose message is a text in front of the error's.
abbrev pub fail_with : {S A : Type 0} → String → GoError → Exec S A
fail_with text e = log_fail (string_build (text ∷ error_text e ∷ [])) e

-- The two switches of `IPAddToList` on the name of the list.
unfoldable pub second_list : String → Result String
second_list listname =
    if listname =~ white_list_name
    then ok black_list_name
    else if listname =~ black_list_name
    then ok white_list_name
    else err bad_list_type

unfoldable pub in_second_list : String → GoError
in_second_list listname =
    if listname =~ white_list_name
    then ip_in_bl
    else if listname =~ black_list_name
    then ip_in_wl
    else bad_list_type

module _ {S B : Type 0} (a : App S B) where
  open a use {storage, bucket_storage, limits}

  -- `InitBucketStorageAndLimits`, `CloseBucketStorage`, `InitStorage`, `CloseStorage`
  unfoldable pub init_bucket_storage_and_limits : Context → Exec (Stores S B) Unit
  init_bucket_storage_and_limits ctx = in_buckets (bucket_storage.init ctx)

  unfoldable pub close_bucket_storage : Context → Exec (Stores S B) Unit
  close_bucket_storage ctx = in_buckets (bucket_storage.close ctx)

  unfoldable pub init_storage : Context → Exec (Stores S B) Unit
  init_storage ctx = in_storage (storage.init ctx)

  unfoldable pub close_storage : Context → Exec (Stores S B) Unit
  close_storage ctx = in_storage (storage.close ctx)

  -- `IPIsInSubnetCheck`
  unfoldable pub ip_is_in_subnet_check : Context → String → String → Exec (Stores S B) Bool
  ip_is_in_subnet_check ctx listname ip = do
    catch (lift (check_list_name listname)) (fail_with "IPIsInSubnetCheck checkListName failed: ")
    list ← in_storage (storage.ip_get_all_from_list ctx listname)
    lift (scan_subnets (parse_ip ip) list)

  -- One call of `IncreaseAndGetBucketValue` in `CheckRequest`, with its error path.
  unfoldable pub count_attempt : Context → String → String → String → Exec (Stores S B) ℤ
  count_attempt ctx base_text key_text key =
      catch (in_buckets (bucket_storage.increase_and_get_bucket_value ctx key))
        (λ e. log_fail (string_build (base_text ∷ error_text e ∷ key_text ∷ key ∷ [])) e)

  -- `CheckRequest` from the counter of the address on
  unfoldable pub check_ip_rate : Context → RequestAuth → Exec (Stores S B) (Bool × String)
  unfolding count_attempt
  check_ip_rate ctx req = do
    count_ip ←
        count_attempt ctx "CheckRequest IncreaseAndGetBucketValue - IP error: " ", key:"
          ("i_" ⧺ req.ip)
    if ltb_ℤ limits.limit_ip count_ip
        then pure (false, "Limited by IP rate")
        else pure (true, "Check successful")

  -- `CheckRequest` from the counter of the password on
  unfoldable pub check_password_rate : Context → RequestAuth → Exec (Stores S B) (Bool × String)
  unfolding count_attempt
  check_password_rate ctx req = do
    count_password ←
        count_attempt ctx "CheckRequest IncreaseAndGetBucketValue - Password error: " ", key: "
          ("p_" ⧺ req.password)
    if ltb_ℤ limits.limit_password count_password
        then pure (false, "Limited by password rate")
        else check_ip_rate ctx req

  -- `CheckRequest` from the counter of the login on
  unfoldable pub check_login_rate : Context → RequestAuth → Exec (Stores S B) (Bool × String)
  unfolding count_attempt
  check_login_rate ctx req = do
    count_login ←
        count_attempt ctx "CheckRequest IncreaseAndGetBucketValue - Login error: " ", key: "
          ("l_" ⧺ req.login)
    if ltb_ℤ limits.limit_login count_login
        then pure (false, "Limited by login rate")
        else check_password_rate ctx req

  -- `CheckRequest`
  unfoldable pub check_request : Context → RequestAuth → Exec (Stores S B) (Bool × String)
  check_request ctx req = do
    black ←
        catch (ip_is_in_subnet_check ctx "blacklist" req.ip)
          (fail_with "CheckRequest IPIsInSubnet error: ")
    if black then pure (false, "IP is in blacklist") else do
      white ←
          catch (ip_is_in_subnet_check ctx "whitelist" req.ip)
            (fail_with "CheckRequest IPIsInSubnet error: ")
      if white then pure (true, "IP is in whitelist") else check_login_rate ctx req

  -- `ClearBucketForLogin`
  unfoldable pub clear_bucket_for_login : Context → String → Exec (Stores S B) Unit
  clear_bucket_for_login ctx login = do
    catch (in_buckets (bucket_storage.set_bucket_value ctx ("l_" ⧺ login) (pos 0))) (λ e.
        log_fail
          (string_build ("ClearBucketForLogin error: " ∷ error_text e ∷ " Login: " ∷ login ∷ [])) e)
    log_info ("Bucket cleared for login " ⧺ login)

  -- `ClearBucketForIP`
  unfoldable pub clear_bucket_for_ip : Context → String → Exec (Stores S B) Unit
  clear_bucket_for_ip ctx ip_data = do
    catch (in_buckets (bucket_storage.set_bucket_value ctx ("i_" ⧺ ip_data) (pos 0))) (λ e.
        log_fail (string_build ("ClearBucketForIP error: " ∷ error_text e ∷ " IP: " ∷ ip_data ∷ []))
          e)
    log_info ("Bucket cleared for ip " ⧺ ip_data)

  -- One tick of the goroutine of `RateLimitTicker`; the error of the flush is dropped.
  unfoldable pub tick : Context → Exec (Stores S B) Unit
  tick ctx = do
    catch (in_buckets (bucket_storage.flush_storage ctx)) (λ _. pure tt)
    log_info "Buckets flushed"

  -- `IPAddToList`
  unfoldable pub ip_add_to_list : Context → String → StorageIpData → Exec (Stores S B) ℤ
  unfolding second_list in_second_list
  ip_add_to_list ctx listname ip_data = do
    catch (lift (simple_ip_data_validate ip_data false)) (fail_with "IPAddToList validation failed")
    second ← lift (second_list listname)
    found ←
        catch (in_storage (storage.ip_is_in_list ctx second ip_data))
          (fail_with "IPAddToList validation in second list failed")
    if found then fail (in_second_list listname) else do
      id ←
          catch (in_storage (storage.ip_add_to_list ctx listname ip_data))
            (fail_with "IPAddToList IP storage error")
      log_info (
          string_build
            ("IP added to " ∷ listname ∷ "(IP: " ∷ ip_data.ip ∷ "/" ∷ itoa ip_data.mask ∷ ")" ∷ []))
      pure id

  -- `IPRemoveFromList`
  unfoldable pub ip_remove_from_list : Context → String → StorageIpData → Exec (Stores S B) Unit
  ip_remove_from_list ctx listname ip_data = do
    catch (lift (check_list_name listname)) (fail_with "IPRemoveFromList checkListName failed: ")
    catch (lift (simple_ip_data_validate ip_data false))
        (fail_with "IPRemoveFromList IPData validation failed: ")
    catch (in_storage (storage.ip_remove_from_list ctx listname ip_data)) (λ e.
        log_fail
          (string_build
            ("IPRemoveFromList app failed (IP: " ∷ ip_data.ip ∷ "), " ∷ error_text e ∷ []))
          e)
    log_info (
        string_build (
          ("IP successfully removed from " ⧺ listname ⧺ "(IP: ")
          ∷ ip_data.ip
          ∷ "/"
          ∷ itoa ip_data.mask
          ∷ ")"
          ∷ []))

  -- `IPIsInList`
  unfoldable pub ip_is_in_list : Context → String → StorageIpData → Exec (Stores S B) Bool
  ip_is_in_list ctx listname ip_data = do
    catch (lift (check_list_name listname)) (fail_with "IPIsInList checkListName failed: ")
    catch (lift (simple_ip_data_validate ip_data false))
        (fail_with "IPIsInList IPData validation failed: ")
    catch (in_storage (storage.ip_is_in_list ctx listname ip_data))
        (fail_with "IPIsInList app failed: ")

  -- `IPGetAllFromList`
  unfoldable pub ip_get_all_from_list : Context → String → Exec (Stores S B) (List StorageIpData)
  ip_get_all_from_list ctx listname = do
    catch (lift (check_list_name listname)) (fail_with "IPGetAllFromList checkListName failed: ")
    catch (in_storage (storage.ip_get_all_from_list ctx listname))
        (fail_with "IPGetAllFromList app failed: ")

  -- The application as the server uses it.
  abbrev pub application : Application (Stores S B)
  application = record {
    init_bucket_storage_and_limits = init_bucket_storage_and_limits;
    close_bucket_storage = close_bucket_storage;
    check_request = check_request;
    clear_bucket_for_login = clear_bucket_for_login;
    clear_bucket_for_ip = clear_bucket_for_ip;
    init_storage = init_storage;
    close_storage = close_storage;
    ip_add_to_list = ip_add_to_list;
    ip_remove_from_list = ip_remove_from_list;
    ip_is_in_list = ip_is_in_list;
    ip_get_all_from_list = ip_get_all_from_list;
  }
