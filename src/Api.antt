-- ===== src/Api.antt =====
-- The endpoints of the API service and what they share: api_service/deps.py and
-- api_service/services/auth.py.
pub mod Users
pub mod Download
pub mod Files
use secure_file_system.Base.{ℕ, Bool, ◌==◌, list_eq, nat_eq, if◌then◌else◌, Result, ok, err, Done}
use secure_file_system.Network.{Network, World}
use secure_file_system.RateLimit.{RateLimiter}

-- What outlives a request. A transfer slot is given back at the end of the request that took it, so
-- that only the number of the free ones is kept.
pub record Service (net : Network) : Type 0 where
  pub world : World net
  pub download_limiter : RateLimiter
  pub api_limiter : RateLimiter
  pub free_slots : ℕ

-- What an `HTTPException` keeps of itself, its status. An exception that nothing catches is a 500.
abbrev pub HttpStatus : Type 0
HttpStatus = ℕ

-- `transfer_slot`
unfoldable pub transfer_slot : ℕ → Result HttpStatus Done
transfer_slot free = if free == 0 then err 503 else ok tt

-- `enforce_rate_limit`, with what `limiter.allow` returned.
unfoldable pub enforce_rate_limit : Bool → Result HttpStatus Done
enforce_rate_limit allowed = if allowed then ok tt else err 429
