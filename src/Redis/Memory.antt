-- ===== src/Redis/Memory.antt =====
-- A server in memory, which always carries its commands out: it meets the assumptions on Redis, so
-- that they can be met, and it runs.
use golang_fin.Prelude.{
  ◌^◌, String, ◌≡◌, refl, Bool, ◌&&◌, Option, some, ◌=~◌, subst, sym, List, [], arith, ltb, leb,
  if◌then◌else◌, inl,
}
use golang_fin.Prelude.Int.{ℤ, pos, negsuc, ◌⊕◌, IsInt64, pos_part, neg_part}
use golang_fin.Std.Strconv.{itoa}
use golang_fin.Std.Map.{lookup, insert, lookup-insert}
use golang_fin.Errors.{GoError, Result, ok, err, external}
use golang_fin.StorageData.{Context}
use golang_fin.Redis.Client.{RedisClient, IsRedis, number}

abbrev pub Memory : Type 0
Memory = List (String × String)

-- what GET would reply
abbrev pub stored : Memory → String → Option String
stored m key = lookup key m

abbrev in_range : ℤ → Bool
in_range z = ltb (pos_part z) (2 ^ 63) && leb (neg_part z) (2 ^ 63)

-- The reply of INCR to the sum, and the state after it.
unfoldable pub incr_by : ℤ → String → Memory → Result ℤ × Memory
incr_by sum key m =
    if in_range sum
    then (ok sum, insert key (itoa sum) m)
    else (err (external "ERR increment or decrement would overflow"), m)

unfoldable pub incr : Context → String → Memory → Result ℤ × Memory
incr ctx key m = incr_by (number (stored m key) ⊕ 1) key m

unfoldable pub set : Context → String → String → Memory → Result Unit × Memory
set ctx key text m = (ok tt, insert key text m)

unfoldable pub flush_db : Context → Memory → Result Unit × Memory
flush_db ctx m = (ok tt, [])

abbrev pub memory_client : RedisClient Memory
memory_client = record {
  ping = λ ctx m. (ok tt, m);
  incr = incr;
  set = set;
  flush_db = flush_db;
  close = λ m. (ok tt, m);
}

incr_by-ok :
    (sum : ℤ) (key : String) (m : Memory) (reply : ℤ)
    → (incr_by sum key m).0 ≡ ok reply
    → (reply ≡ sum) × IsInt64 sum × ((incr_by sum key m).1 ≡ insert key (itoa sum) m)
unfolding incr_by
incr_by-ok (pos n) key m reply h = (ground arith, ground arith, ground arith)
incr_by-ok (negsuc n) key m reply h = (ground arith, ground arith, ground arith)

incr_by-err :
    (sum : ℤ) (key : String) (m : Memory) (x : GoError)
    → (incr_by sum key m).0 ≡ err x
    → (incr_by sum key m).1 ≡ m
unfolding incr_by
incr_by-err sum key m x h = ground arith

insert-writes :
    (key text : String) (m : Memory) (j : String)
    → stored (insert key text m) j ≡ (if key =~ j then some text else stored m j)
insert-writes key text m j = lookup-insert key j text m

pub memory-IsRedis : IsRedis memory_client stored
unfolding incr set flush_db lookup
memory-IsRedis = record {
  incr_ok = λ ctx key m reply h.
      let (same, range, after) = incr_by-ok (number (stored m key) ⊕ 1) key m reply h in
      (same, subst IsInt64 (sym same) range, λ j. rw (after, same) (insert-writes key _ m j));
  incr_err = λ ctx key m x h. inl (λ j. rw (incr_by-err (number (stored m key) ⊕ 1) key m x h));
  set_ok = λ ctx key text m h j. insert-writes key text m j;
  set_err = λ ctx key text m x h. cc;
  flush_ok = λ ctx m j h. refl;
  flush_err = λ ctx m x h. cc;
}
