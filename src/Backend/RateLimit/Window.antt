-- ===== src/Backend/RateLimit/Window.antt =====
-- The pruned histories of the rate limit against a log that forgets nothing.
use neuravex.Prelude.{
  length-append, ℕ, ◌≤◌, String, ◌≡◌, refl, ◌∙◌, ◌⊎◌, inl, inr, true, false, List, [], ◌∷◌, ◌++◌,
  All, length, length-append, keep, ltb, str_eq, eq_iff, or_else, later, arith, Bool-cases,
  if◌then◌else◌,
}
use neuravex.Prelude.Dict.{get, insert, get-insert}
use neuravex.Backend.RateLimit.{
  window, max_requests_per_window, RedisServer, Limiter, Response, passed, limited, Request,
  is_recent, count_in_process, dispatch, serve, get_redis_client,
}

-- The times of a client's requests.
unfoldable pub times_of : String → List Request → List ℕ
times_of client [] = []
times_of client (q ∷ log) =
    if str_eq q.client client then q.at ∷ times_of client log else times_of client log

-- How many of the times are less than a window ago.
abbrev pub recent_count : ℕ → List ℕ → ℕ
recent_count now times = length (keep (is_recent now) times)

-- The promise: a request passes exactly when fewer than 120 of its client came in the window before.
unfoldable pub answer : Request → List Request → Response
answer q earlier =
    if ltb (recent_count q.at (times_of q.client earlier)) max_requests_per_window
    then passed
    else limited

-- The answers to a sequence of requests; `earlier` is the log, the latest first.
unfoldable pub answers : List Request → List Request → List Response
unfolding answer
answers earlier [] = []
answers earlier (q ∷ requests) = answer q earlier ∷ answers (q ∷ earlier) requests

-- The log after the requests.
abbrev pub log_after : List Request → List Request → List Request
log_after earlier [] = earlier
log_after earlier (q ∷ requests) = log_after (q ∷ earlier) requests

abbrev pub time_after : ℕ → List Request → ℕ
time_after now [] = now
time_after now (q ∷ requests) = time_after q.at requests

-- The clock does not go back.
abbrev pub InOrder : ℕ → List Request → Type 0
InOrder now [] = Unit
InOrder now (q ∷ requests) = (now ≤ q.at) × InOrder q.at requests

-- Pruning at a time loses nothing that a later request counts.
recent_count-keep :
    (now before : ℕ) (times : List ℕ)
    → before ≤ now
    → recent_count now (keep (is_recent before) times) ≡ recent_count now times
recent_count-keep now before [] h = refl
recent_count-keep now before (t ∷ times) h = ground (arith, recent_count-keep now before times h)

recent_count-snoc :
    (now t : ℕ) (times : List ℕ) → recent_count now (times ++ t ∷ []) ≡ recent_count now (t ∷ times)
recent_count-snoc now t [] = refl
recent_count-snoc now t (u ∷ times) = ground (arith, recent_count-snoc now t times)

recent_count-new :
    (now at : ℕ) (old times : List ℕ)
    → at ≤ now
    → recent_count now old ≡ recent_count now times
    → recent_count now (keep (is_recent at) old ++ at ∷ []) ≡ recent_count now (at ∷ times)
recent_count-new now at old times h e =
    ground
      (arith, recent_count-snoc now at (keep (is_recent at) old), recent_count-keep now at old h)

module _ {R : Type 0} (server : RedisServer R) where
  history_of : Limiter R → String → List ℕ
  history_of l client = or_else (get client l.in_process_counters) []

  -- From `now` on the histories count what the log counts.
  Counts : ℕ → List Request → Limiter R → Type 0
  Counts now log l =
      (client : String) (at : ℕ)
      → now ≤ at
      → recent_count at (history_of l client) ≡ recent_count at (times_of client log)

  -- No client for Redis is returned.
  abbrev pub IsDirect : Limiter R → Type 0
  IsDirect l = (l.redis_checked ≡ true) ⊎ (server.connects l.redis ≡ false)

  pub dispatch-direct :
      (q : Request) (l : Limiter R)
      → IsDirect l
      → dispatch server q l
        ≡ count_in_process server q.client q.at (record l { redis_checked = true })
  unfolding dispatch get_redis_client
  dispatch-direct q l (inl t) = rw t refl
  dispatch-direct q l (inr t) = elim (Bool-cases l.redis_checked) [
    | inl checked ↦ rw checked refl
    | inr fresh ↦ rw (fresh, t) refl
  ]

  -- The entry of the client that asks has its new history, and every other entry is as it was.
  history_of-insert :
      (l : Limiter R) (c client : String) (times : List ℕ)
      → history_of (record l { in_process_counters = insert c times l.in_process_counters }) client
        ≡ (if str_eq c client then times else history_of l client)
  unfolding history_of
  history_of-insert l c client times =
      rw (get-insert c client times l.in_process_counters) (ground arith)

  count_in_process-Counts :
      (q : Request) (now : ℕ) (log : List Request) (l : Limiter R)
      → now ≤ q.at
      → Counts now log l
      → Counts q.at (q ∷ log) (count_in_process server q.client q.at l).1
  unfolding count_in_process Counts times_of history_of
  count_in_process-Counts q now log l h c client at k =
      rw (history_of-insert l q.client client _) (elim (Bool-cases (str_eq q.client client)) [
        | inl t ↦
            let same : q.client ≡ client = (eq_iff q.client client).0 t in
            rw t (
              rw same (
                recent_count-new at q.at (history_of l client) (times_of client log) k
                  (c client at (omega arith))))
        | inr t ↦ rw t (c client at (omega arith))
      ])

  count_in_process-answer :
      (q : Request) (now : ℕ) (log : List Request) (l : Limiter R)
      → now ≤ q.at
      → Counts now log l
      → (count_in_process server q.client q.at l).0 ≡ answer q log
  unfolding count_in_process Counts history_of answer
  count_in_process-answer q now log l h c = ground (
    arith,
    length-append (keep (is_recent q.at) (history_of l q.client)) (q.at ∷ []),
    c q.client q.at h,
  )

  count_in_process-IsDirect :
      (q : Request) (l : Limiter R)
      → IsDirect (count_in_process server q.client q.at (record l { redis_checked = true })).1
  unfolding count_in_process
  count_in_process-IsDirect q l = inl refl

  dispatch-step :
      (q : Request) (now : ℕ) (log : List Request) (l : Limiter R)
      → IsDirect l
      → now ≤ q.at
      → Counts now log l
      → let one = dispatch server q l in
        (one.0 ≡ answer q log) × IsDirect one.1 × Counts q.at (q ∷ log) one.1
  unfolding Counts history_of
  dispatch-step q now log l d h c =
      let checked = record l { redis_checked = true } in
      let same : Counts now log checked = c in
      rw (dispatch-direct q l d) (
        count_in_process-answer q now log checked h same,
        count_in_process-IsDirect q l,
        count_in_process-Counts q now log checked h same,
      )

  serve-Counts :
      (requests log : List Request) (now : ℕ) (l : Limiter R)
      → IsDirect l
      → InOrder now requests
      → Counts now log l
      → let end = serve server requests l in
        (end.0 ≡ answers log requests)
        × IsDirect end.1
        × Counts (time_after now requests) (log_after log requests) end.1
  unfolding serve answers
  serve-Counts [] log now l d o c = (refl, d, c)
  serve-Counts (q ∷ requests) log now l d o c =
      let one = dispatch-step q now log l d o.0 c in
      let others = serve-Counts requests (q ∷ log) q.at (dispatch server q l).1 one.1 o.1 one.2 in
      (λ i. one.0 i ∷ others.0 i, others.1, others.2)

  -- The pruned histories keep the promise of the log that forgets nothing: if the clock does not
  -- go back, Redis is not in use and no request was counted before, every request of a run passes
  -- exactly when fewer than 120 requests of its client came in the 60 seconds before it, those
  -- that were refused included.
  pub serve-answers :
      (requests : List Request) (l : Limiter R)
      → IsDirect l
      → l.in_process_counters ≡ []
      → InOrder 0 requests
      → (serve server requests l).0 ≡ answers [] requests
  unfolding Counts history_of times_of get
  serve-answers requests l d e o = (serve-Counts requests [] 0 l d o (λ client at h. rw e refl)).0

  all_old :
      (client : String) (now : ℕ) (log : List Request)
      → All (λ q. str_eq q.client client ≡ true → later q.at window ≤ now) log
      → recent_count now (times_of client log) ≡ 0
  unfolding times_of
  all_old client now [] h = refl
  all_old client now (q ∷ log) (old, rest) = ground (arith, all_old client now log rest)

  -- A client whose requests are all at least 60 seconds old passes, after any run of requests,
  -- however many of them were refused, if the clock does not go back, Redis is not in use and no
  -- request was counted before the run.
  pub serve-recovers :
      (requests : List Request) (q : Request) (l : Limiter R)
      → IsDirect l
      → l.in_process_counters ≡ []
      → InOrder 0 requests
      → time_after 0 requests ≤ q.at
      → All
          (λ r. str_eq r.client q.client ≡ true → later r.at window ≤ q.at)
          (log_after [] requests)
      → (dispatch server q (serve server requests l).1).0 ≡ passed
  unfolding Counts history_of times_of get answer
  serve-recovers requests q l d e o h old =
      let run = serve-Counts requests [] 0 l d o (λ client at k. rw e refl) in
      (dispatch-step q _ _ _ run.1 h run.2).0 ∙ rw (all_old q.client q.at _ old) refl
