-- ===== src/Core/RateLimit.antt =====
-- apps/core/ratelimit.py
pub mod Window
use kusanya.Base.{
  ℕ, ◌==◌, ◌||◌, not, str_eq, String, Bool, true, false, Option, none, some, leb, if◌then◌else◌,
}
use Prim.Native.String.{◌++◌}
use kusanya.Core.Cache.{Cache, or_zero}

-- The settings. `limit` 0 turns the limiter off.
pub record Settings : Type 0 where
  pub limit : ℕ
  pub window_seconds : ℕ
  pub is_exempt : String → Bool

-- A request: the text of the user's key where one is logged in, its address, and whether the
-- cache answers its read and takes its write.
pub record HttpRequest : Type 0 where
  pub path : String
  pub user_pk : Option String
  pub client_ip : Option String
  pub reads : Bool
  pub writes : Bool

pub data Decision : Type 0 where
  passed_on too_many_requests : Decision

abbrev or_unknown : Option String → String
or_unknown none = "unknown"
or_unknown (some ip) = if str_eq ip "" then "unknown" else ip

unfoldable pub client_key : Option String → Option String → String
client_key (some pk) client_ip = "user:" ++ pk
client_key none client_ip = "ip:" ++ or_unknown client_ip

abbrev pub limit_key : HttpRequest → String
limit_key r = "request_rate_limit:" ++ client_key r.user_pk r.client_ip

module _ (cache : Cache) (settings : Settings) where
  -- The write of the counter, which an outage loses.
  unfoldable pub count_request : Bool → ℕ → cache.State → ℕ → String → cache.State
  count_request false count s now key = s
  count_request true count s now key =
      if count == 0 then cache.set s now key 1 settings.window_seconds else cache.incr s now key

  -- `RequestRateLimitMiddleware.__call__`, on the cache: whether the request is passed on.
  unfoldable pub handle : cache.State → ℕ → HttpRequest → Decision × cache.State
  handle s now r =
      let key = limit_key r in
      let count = or_zero (cache.get s now key) in
      if settings.limit == 0 || settings.is_exempt r.path
      then (passed_on, s)
      else if not r.reads
      then (passed_on, s)
      else if leb settings.limit count
      then (too_many_requests, s)
      else (passed_on, count_request r.writes count s now key)
