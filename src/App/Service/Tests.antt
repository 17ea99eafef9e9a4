-- ===== src/App/Service/Tests.antt =====
-- Runs of the application over the mock and a server in memory, and its theorems at such states.
use golang_fin.Prelude.{
  ◌≢◌, Bool, true, ◌⊎◌, if◌then◌else◌, String, ◌≡◌, refl, arith, false, List, [], ◌∷◌, ◌=~◌,
}
use golang_fin.Prelude.Int.{ℤ, pos, ◌⊕◌}
use golang_fin.App.Validate.{simple_ip_data_validate, check_parts}
use golang_fin.Std.Map.{delete, lookup, insert, values}
use golang_fin.Std.Sort.{sort_stable}
use golang_fin.Std.Net.{parse_ip, parse_cidr, contains}
use golang_fin.Std.Strconv.{atoi, itoa}
use golang_fin.Errors.{ok, error_text}
use golang_fin.App.Service.Disjoint.{
  Op, check, add, remove, perform, perform_all, IsDisjoint, perform_all-IsDisjoint,
}
use golang_fin.StorageSqlMock.Listing.{same_tag, holds, mock-IsListing}
use golang_fin.StorageData.{StorageIpData, RequestAuth, Context, string_build}
use golang_fin.Exec.{Env, ◌>>◌}
use golang_fin.StorageSqlMock as Mock
use golang_fin.StorageSqlMock.{Mock, mock_storage}
use golang_fin.Redis.{set_bucket_value, redis_storage, increase_and_get_bucket_value}
use golang_fin.Redis.Memory.{set, incr, incr_by, Memory, memory_client, stored, memory-IsRedis}
use golang_fin.Redis.Counting.{count, redis-IsCounting}
use golang_fin.App.Subnets.{check_list_name, scan_subnets, cidr_text}
use golang_fin.App.Service.{
  App, Stores, clear_bucket_for_login, ip_remove_from_list, check_request, ip_add_to_list,
  check_login_rate, check_password_rate, check_ip_rate, count_attempt, ip_is_in_subnet_check,
}
use golang_fin.App.Service.Check.{attempts_of}
use golang_fin.App.Service.Verdict.{Decided, check_request-verdict}
use golang_fin.App.Service.Cleared.{of_login, clear, clear-check_request}
use golang_fin.App.Service.Race.{check_second, add_checked, race, race-on_both}
use golang_fin.Interfaces.Counting.{IsCounting}
use golang_fin.App.Service.Window.{accepted, rate_limits, Bounded}

abbrev app : App Mock Memory
app = record {
  storage = mock_storage (λ l. l);
  bucket_storage = redis_storage memory_client;
  limits = record { limit_login = pos 2; limit_password = pos 100; limit_ip = pos 1000 };
}

abbrev live : Context
live = record { done = false }

abbrev start : Env (Stores Mock Memory)
start = record {
  state = record {
    storage = record { whitelist = []; blacklist = []; id_white = 0; id_black = 0 };
    buckets = [];
  };
  log = [];
}

abbrev request : String → RequestAuth
request ip = record { login = "ann"; password = "pw"; ip = ip }

abbrev three : List (Context × RequestAuth)
three = (live, request "10.0.0.1") ∷ (live, request "10.0.0.2") ∷ (live, request "10.0.0.3") ∷ []

-- Everything that a run of the service computes with.
service : Unit {0}
unfolding check_request check_login_rate check_password_rate check_ip_rate count_attempt
    ip_is_in_subnet_check ip_add_to_list check_list_name scan_subnets cidr_text accepted Mock.tag
    Mock.ip_get_all_from_list Mock.ip_add_to_list Mock.ip_is_in_list sort_stable values lookup
    insert increase_and_get_bucket_value incr incr_by ◌⊕◌ atoi itoa parse_ip parse_cidr contains
    string_build error_text
service = tt

-- With a limit of two for a login the third attempt is refused.
two_of_three : accepted app (λ r. r.login =~ "ann") three start ≡ 2
unfolding service
two_of_three = refl

rate_limits_example :
    Bounded app
      (count stored)
      (redis-IsCounting memory_client stored memory-IsRedis)
      "l_ann"
      (λ r. r.login =~ "ann")
      (pos 2)
      three
      start
    × Bounded app
        (count stored)
        (redis-IsCounting memory_client stored memory-IsRedis)
        "p_pw"
        (λ r. r.password =~ "pw")
        (pos 100)
        three
        start
    × Bounded app
        (count stored)
        (redis-IsCounting memory_client stored memory-IsRedis)
        "i_10.0.0.1"
        (λ r. r.ip =~ "10.0.0.1")
        (pos 1000)
        three
        start
rate_limits_example =
    rate_limits app (count stored) (redis-IsCounting memory_client stored memory-IsRedis) "ann" "pw"
      "10.0.0.1" three start

abbrev network : StorageIpData
network = record { ip = "10.0.0.0"; mask = pos 24; id = pos 0 }

abbrev list_changes : List (Context × Op)
list_changes =
    (live, add "whitelist" network)
    ∷ (live, add "blacklist" network)
    ∷ (live, check (request "10.0.0.1"))
    ∷ (live, remove "whitelist" network)
    ∷ (live, add "blacklist" network)
    ∷ []

-- The second addition fails, the fourth call makes room for the last.
moved_to_black : (perform_all app list_changes start).state.storage ≡ record {
  whitelist = [];
  blacklist = ("10.0.0.0/24", network) ∷ [];
  id_white = 1;
  id_black = 1;
}
unfolding service perform_all perform ip_remove_from_list simple_ip_data_validate check_parts
    Mock.ip_remove_from_list delete
moved_to_black = refl

empty_lists : IsDisjoint app same_tag holds (mock-IsListing (λ l. l)) start
unfolding lookup
empty_lists = record { apart = λ d w b. ground arith }

perform_all-IsDisjoint_example :
    IsDisjoint app same_tag holds (mock-IsListing (λ l. l)) (perform_all app list_changes start)
perform_all-IsDisjoint_example =
    perform_all-IsDisjoint app same_tag holds (mock-IsListing (λ l. l)) list_changes start
      empty_lists

abbrev counting : IsCounting (redis_storage memory_client) (count stored)
counting = redis-IsCounting memory_client stored memory-IsRedis

passes : (check_request app live (request "10.0.0.1") start).0 ≡ ok (true, "Check successful")
unfolding service
passes = refl

check_request-verdict_example :
    (((◌≡◌ {A = Bool × String} (true, "Check successful") (false, "IP is in blacklist"))
        ⊎ (◌≡◌ {A = Bool × String} (true, "Check successful") (true, "IP is in whitelist")))
      × ((j : String)
          → attempts_of (count stored) (check_request app live (request "10.0.0.1") start).1 j
            ≡ attempts_of (count stored) start j))
    ⊎ Decided app
        (count stored)
        counting
        (request "10.0.0.1")
        (true, "Check successful")
        (attempts_of (count stored) start)
        (attempts_of (count stored) (check_request app live (request "10.0.0.1") start).1)
check_request-verdict_example =
    check_request-verdict app (count stored) counting live (request "10.0.0.1")
      (true, "Check successful") start passes

used : Env (Stores Mock Memory)
used = record {
  state = record {
    storage = start.state.storage;
    buckets = ("l_ann", "2") ∷ ("i_10.0.0.1", "7") ∷ [];
  };
  log = [];
}

login_cleared : (clear_bucket_for_login app live "ann" used).0 ≡ ok tt
unfolding clear_bucket_for_login set_bucket_value set
login_cleared = refl

abbrev limited : RequestAuth
limited = record { login = "ann"; password = "pw"; ip = "10.0.0.1" }

clear-check_request_example :
    ((check_request app live limited (clear app of_login live limited used).1).0
      ≢ ok (false, "Limited by login rate"))
    × ((j : String)
        → attempts_of (count stored) (clear app of_login live limited used).1 j
          ≡ (if "l_ann" =~ j then pos 0 else attempts_of (count stored) used j))
clear-check_request_example =
    clear-check_request app (count stored) counting of_login live live limited used login_cleared
      (omega arith)

-- Both additions succeed.
raced : (race app live live network start).0 ≡ ok (pos 0, pos 0)
unfolding service race check_second add_checked simple_ip_data_validate check_parts
raced = refl

network_is_same : same_tag network network ≡ true
unfolding service
network_is_same = refl

race-on_both_example :
    ((c : Context) (name : String) (e : Env (Stores Mock Memory))
      → ip_add_to_list app c name network e
        ≡ (check_second app c name network >> add_checked app c name network) e)
    × (holds (race app live live network start).1.state.storage "whitelist" network ≡ true)
    × (holds (race app live live network start).1.state.storage "blacklist" network ≡ true)
    × ((id : ℤ)
        → ¬ (
            ((ip_add_to_list app live "whitelist" network
                >> ip_add_to_list app live "blacklist" network)
              start).0
            ≡ ok id))
race-on_both_example =
    race-on_both app same_tag holds (mock-IsListing (λ l. l)) live live network start (pos 0, pos 0)
      network_is_same raced
