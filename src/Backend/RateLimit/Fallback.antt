-- ===== src/Backend/RateLimit/Fallback.antt =====
-- How long the rate limit uses Redis.
use neuravex.Prelude.{String, ◌≡◌, refl, ◌∙◌, inl, true, false, List, [], ◌∷◌, arith}
use neuravex.Backend.RateLimit.{
  RedisServer, Limiter, Request, count_in_redis, count_in_process, dispatch, serve,
  get_redis_client,
}
use neuravex.Backend.RateLimit.Window.{InOrder, answers, dispatch-direct, serve-answers}

module _ {R : Type 0} (server : RedisServer R) where
  count_in_redis_keeps :
      (client : String) (l : Limiter R)
      → let after = (count_in_redis server client l).1 in
        (after.redis_checked ≡ l.redis_checked)
        × (after.in_process_counters ≡ l.in_process_counters)
  unfolding count_in_redis
  count_in_redis_keeps client l = ground arith

  dispatch-checked : (q : Request) (l : Limiter R) → (dispatch server q l).1.redis_checked ≡ true
  unfolding dispatch get_redis_client count_in_process
  dispatch-checked q l =
      ground (arith, count_in_redis_keeps q.client (record l { redis_checked = true }))

  serve-direct :
      (requests : List Request) (l : Limiter R)
      → l.redis_checked ≡ true
      → (serve server requests l).1.redis ≡ l.redis
  unfolding serve count_in_process
  serve-direct [] l d = refl
  serve-direct (q ∷ requests) l d =
      serve-direct requests (dispatch server q l).1 (dispatch-checked q l)
      ∙ rw (dispatch-direct server q l (inl d)) refl

  dispatch-first :
      (q : Request) (l : Limiter R)
      → l.redis_checked ≡ false
      → server.connects l.redis ≡ true
      → dispatch server q l ≡ count_in_redis server q.client (record l { redis_checked = true })
  unfolding dispatch get_redis_client
  dispatch-first q l fresh connected = rw (fresh, connected) refl

  -- Where Redis is configured and answers when the first request comes, it counts that request and
  -- no other: the client that is found is returned once and not kept, so every later request is
  -- answered from the counts of the process, as if Redis were not there. The clock must not go
  -- back, and no request may have been counted before.
  pub serve-Forgets :
      (q : Request) (requests : List Request) (l : Limiter R)
      → l.redis_checked ≡ false
      → server.connects l.redis ≡ true
      → l.in_process_counters ≡ []
      → InOrder 0 requests
      → let end = serve server (q ∷ requests) l in
        let first = count_in_redis server q.client (record l { redis_checked = true }) in
        (end.1.redis ≡ first.1.redis) × (end.0 ≡ first.0 ∷ answers [] requests)
  unfolding serve
  serve-Forgets q requests l fresh connected e o =
      let keeps = count_in_redis_keeps q.client (record l { redis_checked = true }) in
      let first = dispatch-first q l fresh connected in
      let counted = count_in_redis server q.client (record l { redis_checked = true }) in
      let rest = serve-answers server requests counted.1 (inl keeps.0) (keeps.1 ∙ e) o in
      rw first (serve-direct requests counted.1 keeps.0, λ i. counted.0 ∷ rest i)
