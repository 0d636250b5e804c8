-- ===== src/RateLimit/Bound.antt =====
-- How many requests a window lets through.
use auth_n_z.Common.{
  ltb, leb, if◌then◌else◌, length, lookup, lookup-insert, ℕ, suc, ◌+◌, ◌-◌, ◌<◌, min, String, ◌≡◌,
  Bool, true, ◌&&◌, some, List, [], ◌∷◌, arith, eq_iff, eq_refl,
}
use auth_n_z.RateLimit.Window.{Counters, live, clean, count_request, check_in_memory}

live-lookup :
    (now : ℕ) (key : String) (count reset : ℕ) (d : Counters)
    → lookup key d ≡ some (count, reset)
    → now < reset
    → lookup key (live now d) ≡ some (count, reset)
unfolding live lookup
live-lookup now key count reset [] there early = ground arith
live-lookup now key count reset ((k, (c, r)) ∷ d) there early =
    ground (arith, live-lookup now key count reset d, eq_iff k key)

clean-lookup :
    (now : ℕ) (key : String) (count reset : ℕ) (d : Counters)
    → lookup key d ≡ some (count, reset)
    → now < reset
    → lookup key (clean now d) ≡ some (count, reset)
unfolding clean
clean-lookup now key count reset d there early =
    ground (arith, live-lookup now key count reset d there early)

-- requests for one key at these times, and how many are let through
unfoldable pub let_through : (key : String) (max_requests window : ℕ) → List ℕ → Counters → ℕ
let_through key max_requests window [] d = 0
let_through key max_requests window (now ∷ times) d =
    let (ok, d') = check_in_memory key max_requests window now d in
    let rest = let_through key max_requests window times d' in if ok then suc rest else rest

-- all times are before the end
unfoldable pub all_before : ℕ → List ℕ → Bool
all_before reset [] = true
all_before reset (now ∷ times) = ltb now reset && all_before reset times

counted :
    (key : String) (max_requests window now count reset : ℕ) (d : Counters)
    → lookup key d ≡ some (count, reset)
    → now < reset
    → let (ok, d') = check_in_memory key max_requests window now d in
      (ok ≡ leb (count + 1) max_requests) × (lookup key d' ≡ some (count + 1, reset))
unfolding check_in_memory count_request
counted key max_requests window now count reset d there early =
    let kept = clean-lookup now key count reset d there early in
    (
      rw (kept) (ground arith),
      rw (kept)
          (ground (arith, lookup-insert key key (count + 1, reset) (clean now d), eq_refl key)),
    )

-- Without Redis, once a key has been counted in a window, exactly as many of the requests that
-- follow before its end are let through as are left to the maximum, or all of them if they are fewer.
pub let_through-window :
    (key : String) (max_requests window count reset : ℕ) (times : List ℕ) (d : Counters)
    → lookup key d ≡ some (count, reset)
    → all_before reset times ≡ true
    → let_through key max_requests window times d ≡ min (length times) (max_requests - count)
unfolding let_through all_before
let_through-window key max_requests window count reset [] d there early = ground arith
let_through-window key max_requests window count reset (now ∷ times) d there early =
    let (ok, d') = check_in_memory key max_requests window now d in
    let (allowed, next) = counted key max_requests window now count reset d there (ground arith) in
    let rest =
      let_through-window key max_requests window (count + 1) reset times d' next (ground arith) in
    ground arith
