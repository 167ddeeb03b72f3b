-- ===== src/Transport/Limiter.antt =====
-- The token bucket of pkg/ares/transport/rate_limit.go. Times are nanoseconds. The float64 amounts are
-- read as exact numbers: all are counted in one unit, of which `one` make up a token, so that a rate of
-- any fraction can be given.
use ares_energy_demo.Prelude.{
  ℕ, ◌+◌, ◌-◌, ◌*◌, Bool, true, false, Option, none, some, ltb, leb, nat_beq, ◌||◌, if◌then◌else◌,
}

-- `refill_rate` is the amount for each nanosecond.
pub record RateLimiter : Type 0 where
  pub capacity : ℕ
  pub refill_rate : ℕ
  pub tokens : ℕ
  pub last_tick : ℕ

-- `none` is the nil limiter, which a rate or a burst that is not positive gives.
unfoldable pub new_rate_limiter : ℕ → ℕ → ℕ → Option RateLimiter
new_rate_limiter rate burst now =
    if nat_beq rate 0 || nat_beq burst 0
    then none
    else some (record { capacity = burst; refill_rate = rate; tokens = burst; last_tick = now })

abbrev pub at_most : ℕ → ℕ → ℕ
at_most cap n = if ltb cap n then cap else n

unfoldable pub refill : RateLimiter → ℕ → RateLimiter
refill rl now =
    if ltb rl.last_tick now
    then record rl {
      tokens = at_most rl.capacity (rl.tokens + (now - rl.last_tick) * rl.refill_rate);
      last_tick = now;
    }
    else rl

module _ (one : ℕ) where
  unfoldable pub take_token : RateLimiter → RateLimiter × Bool
  take_token rl =
      if leb one rl.tokens then (record rl { tokens = rl.tokens - one }, true) else (rl, false)

  unfoldable pub allow : Option RateLimiter → ℕ → Option RateLimiter × Bool
  unfolding refill take_token
  allow none now = (none, true)
  allow (some rl) now = let (rl', admitted) = take_token (refill rl now) in (some rl', admitted)
