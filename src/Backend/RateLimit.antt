-- ===== src/Backend/RateLimit.antt =====
-- backend/app/core/rate_limit.py. Redis is not part of the repository: an interface over a state of its
-- own. Times are in microseconds.
pub mod Window
pub mod Fallback
use neuravex.Prelude.{
  ℕ, String, Bool, true, false, Option, none, some, List, [], ◌∷◌, ◌++◌, length, keep, ltb, nat_eq,
  or_else, later, if◌then◌else◌,
}
use neuravex.Prelude.Dict.{Dict, get, insert}

abbrev pub window : ℕ
window = 60_000_000

abbrev pub max_requests_per_window : ℕ
max_requests_per_window = 120

-- `connects` is whether REDIS_URL is set and the server answers a ping; `incr` and `expire` may raise.
pub record RedisServer (R : Type 0) : Type 0 where
  pub connects : R → Bool
  pub incr : String → R → Option ℕ × R
  pub expire : String → ℕ → R → Bool × R

-- The module's variables, and Redis. The variable `_redis_client` is None from the start, and no line
-- of the module assigns another value to it.
pub record Limiter (R : Type 0) : Type 0 where
  pub in_process_counters : Dict (List ℕ)
  pub redis_checked : Bool
  pub redis : R

pub data Response : Type 0 where
  passed limited : Response

-- `now - t < _WINDOW_SECONDS`
abbrev pub is_recent : ℕ → ℕ → Bool
is_recent now t = ltb now (later t window)

pub record Request : Type 0 where
  pub client : String
  pub at : ℕ

module _ {R : Type 0} (server : RedisServer R) where
  -- `_get_redis_client`: whether a client is returned.
  unfoldable pub get_redis_client : Limiter R → Bool × Limiter R
  get_redis_client l =
      if l.redis_checked
      then (false, l)
      else (server.connects l.redis, record l { redis_checked = true })

  unfoldable pub count_in_redis : String → Limiter R → Response × Limiter R
  count_in_redis client l =
      let counted = server.incr client l.redis in
      elim counted.0 [
        | none ↦ (passed, record l { redis = counted.1 })
        | some count ↦
            if nat_eq count 1
            then (passed, record l { redis = (server.expire client 60 counted.1).1 })
            else (
              if ltb max_requests_per_window count then limited else passed,
              record l { redis = counted.1 },
            )
      ]

  unfoldable pub count_in_process : String → ℕ → Limiter R → Response × Limiter R
  count_in_process client now l =
      let history =
        keep (is_recent now) (or_else (get client l.in_process_counters) []) ++ now ∷ [] in
      (
        if ltb max_requests_per_window (length history) then limited else passed,
        record l { in_process_counters = insert client history l.in_process_counters },
      )

  -- `RateLimitMiddleware.dispatch`
  unfoldable pub dispatch : Request → Limiter R → Response × Limiter R
  unfolding get_redis_client count_in_redis count_in_process
  dispatch request l =
      let (has_client, checked) = get_redis_client l in
      if has_client
      then count_in_redis request.client checked
      else count_in_process request.client request.at checked

  -- The middleware over a sequence of requests.
  unfoldable pub serve : List Request → Limiter R → List Response × Limiter R
  serve [] l = ([], l)
  serve (request ∷ requests) l =
      let one = dispatch request l in
      let others = serve requests one.1 in (one.0 ∷ others.0, others.1)
