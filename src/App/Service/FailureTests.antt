-- ===== src/App/Service/FailureTests.antt =====
-- A `CheckRequest` that fails because a counter would overflow.
use golang_fin.Prelude.{
  String, ◌≡◌, refl, List, [], ◌∷◌, arith, All, ◌⊎◌, inl, inr, subst, sym, false,
}
use golang_fin.Prelude.Int.{pos, ◌⊕◌}
use golang_fin.Std.Strings.{split}
use golang_fin.Std.Strconv.{atoi, itoa}
use golang_fin.Std.Net.{parse_ip, parse_cidr, contains}
use golang_fin.Std.Net.Dotted.{is_plain_number}
use golang_fin.Std.Map.{values, lookup, insert}
use golang_fin.Std.Sort.{sort_stable}
use golang_fin.Errors.{ok, err, external, error_text}
use golang_fin.StorageData.{StorageIpData, RequestAuth, Context, string_build}
use golang_fin.Exec.{Env}
use golang_fin.StorageSqlMock as Mock
use golang_fin.StorageSqlMock.{Mock, mock_storage}
use golang_fin.Redis.{redis_storage, increase_and_get_bucket_value}
use golang_fin.Redis.Memory.{Memory, memory_client, incr, incr_by}
use golang_fin.App.Validate.{simple_ip_data_validate, check_parts}
use golang_fin.App.Subnets.{check_list_name, scan_subnets, cidr_text}
use golang_fin.App.Subnets.Accepted.{IsPlainEntry}
use golang_fin.App.Service.{
  App, Stores, check_request, check_login_rate, count_attempt, ip_is_in_subnet_check,
}
use golang_fin.App.Service.Failures.{HoldsPlain, StorageFails, check_request-fails}

abbrev app : App Mock Memory
app = record {
  storage = mock_storage (λ l. l);
  bucket_storage = redis_storage memory_client;
  limits = record { limit_login = pos 2; limit_password = pos 100; limit_ip = pos 1000 };
}

abbrev live : Context
live = record { done = false }

abbrev network : StorageIpData
network = record { ip = "10.0.0.0"; mask = pos 24; id = pos 0 }

-- The network is on the white list, and the counter of the login is at its end.
abbrev full : Env (Stores Mock Memory)
full = record {
  state = record {
    storage = record {
      whitelist = ("10.0.0.0/24", network) ∷ [];
      blacklist = [];
      id_white = 1;
      id_black = 0;
    };
    buckets = ("l_ann", "9223372036854775807") ∷ [];
  };
  log = [];
}

network_plain : IsPlainEntry network
unfolding simple_ip_data_validate check_parts split atoi is_plain_number
network_plain = (refl, (refl, (refl, (refl, (refl, tt)))))

listed_cases :
    (name : String) (list : List StorageIpData)
    → (app.storage.ip_get_all_from_list live name
        (record { state = full.state.storage; log = full.log })).0
      ≡ ok list
    → (list ≡ network ∷ []) ⊎ (list ≡ [])
unfolding Mock.ip_get_all_from_list values sort_stable
listed_cases name list h = ground arith

full_plain : HoldsPlain app live full
full_plain name list h = elim (listed_cases name list h) [
  | inl one ↦ subst (All IsPlainEntry) (sym one) (network_plain, tt)
  | inr nothing ↦ subst (All IsPlainEntry) (sym nothing) tt
]

abbrev attempt : RequestAuth
attempt = record { login = "ann"; password = "pw"; ip = "10.1.0.1" }

same_after : (ip_is_in_subnet_check app live "blacklist" "10.1.0.1" full).1 ≡ full
unfolding ip_is_in_subnet_check check_list_name Mock.ip_get_all_from_list values sort_stable
    scan_subnets
same_after = refl

overflow :
    (check_request app live attempt full).0
    ≡ err (external "ERR increment or decrement would overflow")
unfolding check_request check_login_rate count_attempt ip_is_in_subnet_check check_list_name
    scan_subnets cidr_text Mock.ip_get_all_from_list sort_stable values lookup insert
    increase_and_get_bucket_value incr incr_by ◌⊕◌ atoi itoa parse_ip parse_cidr contains
    string_build error_text
overflow = refl

check_request-fails_example :
    StorageFails app live (external "ERR increment or decrement would overflow")
check_request-fails_example =
    check_request-fails app live attempt full (external "ERR increment or decrement would overflow")
      full_plain (subst (HoldsPlain app live) (sym same_after) full_plain) overflow
