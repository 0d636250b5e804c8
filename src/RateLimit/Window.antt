-- ===== src/RateLimit/Window.antt =====
-- `check_rate_limit`: counters in Redis, with a fallback in memory that counts in fixed windows of
-- whole seconds.
use auth_n_z.Common.{
  ltb, leb, nat_eq, if◌then◌else◌, is_some, or_default, length, Dict, lookup, insert, ℕ, ◌+◌,
  String, Bool, ◌&&◌, Option, none, some, [], ◌∷◌, text_append,
}
use auth_n_z.Common.Redis.{Redis}

-- a count, and the time at which its window ends
abbrev pub Counters : Type 0
Counters = Dict (ℕ × ℕ)

-- the entries whose windows have not ended
unfoldable pub live : ℕ → Counters → Counters
live now [] = []
live now ((k, (count, reset)) ∷ d) =
    let rest = live now d in if leb reset now then rest else (k, (count, reset)) ∷ rest

-- the cleanup of a large cache
unfoldable pub clean : ℕ → Counters → Counters
clean now d = if ltb 5000 (length d) then live now d else d

-- the rest of the fallback, for the entry of the key
unfoldable pub count_request :
    (key : String) (max_requests window now : ℕ) → Counters → Bool × Counters
count_request key max_requests window now d =
    let (count, reset) = or_default (lookup key d) (0, 0) in
    if is_some (lookup key d) && ltb now reset
    then (leb (count + 1) max_requests, insert key (count + 1, reset) d)
    else (leb 1 max_requests, insert key (1, now + window) d)

-- the fallback in memory
unfoldable pub check_in_memory :
    (key : String) (max_requests window now : ℕ) → Counters → Bool × Counters
check_in_memory key max_requests window now d =
    count_request key max_requests window now (clean now d)

module _ (R : Redis) where
  pub record Limiter : Type 0 where
    pub redis : Option R.Db
    pub counters : Counters

  -- `incr`, and `expire` for the first request; `none` if a call raised
  unfoldable pub incr_window : String → ℕ → R.Db → Option ℕ × R.Db
  incr_window key window db =
      let (current, db') = R.incr (text_append "rate_limit:" key) db in
      if nat_eq (or_default current 0) 1
      then (let (done, db'') = R.expire (text_append "rate_limit:" key) window db' in
          (elim done [ none ↦ none | some _ ↦ current ], db''))
      else (current, db')

  unfoldable pub fall_back : (key : String) (max_requests window now : ℕ) → Limiter → Bool × Limiter
  fall_back key max_requests window now s =
      let (ok, d) = check_in_memory key max_requests window now s.counters in
      (ok, record s { counters = d })

  -- `check_rate_limit`
  unfoldable pub check_rate_limit :
      (key : String) (max_requests window_seconds now : ℕ) → Limiter → Bool × Limiter
  check_rate_limit key max_requests window_seconds now s = elim s.redis [
    | none ↦ fall_back key max_requests window_seconds now s
    | some db ↦
        let (current, db') = incr_window key window_seconds db in
        let s' = record s { redis = some db' } in
        elim current [
          | some n ↦ (leb n max_requests, s')
          | none ↦ fall_back key max_requests window_seconds now s'
        ]
  ]
