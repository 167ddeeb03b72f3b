-- ===== src/Transport/Budget.antt =====
-- How many frames the token bucket of pkg/ares/transport/rate_limit.go admits.
use ares_energy_demo.Prelude.{
  ℕ, suc, ◌+◌, ◌-◌, ◌*◌, ◌≤◌, ◌≡◌, refl, sym, ◌∙◌, subst, ap, Bool, true, false, List, [], ◌∷◌,
  Option, some, ltb, leb, arith, Bool-cases, inl, inr, ltb→lt, nat_beq, ◌||◌, All,
}
use native.Mathlib.Nat.{add-mul, mul-le-mul_right}
use ares_energy_demo.Transport.Limiter.{RateLimiter, new_rate_limiter, refill, take_token, allow}

-- A refill adds no more than the rate allows for the time that has passed, and keeps to the capacity.
record Refilled (rl rl' : RateLimiter) : Type 0 where
  rate : rl'.refill_rate ≡ rl.refill_rate
  size : rl'.capacity ≡ rl.capacity
  forward : rl.last_tick ≤ rl'.last_tick
  added : rl'.tokens ≤ rl.tokens + (rl'.last_tick - rl.last_tick) * rl.refill_rate
  held : rl.tokens ≤ rl.capacity → rl'.tokens ≤ rl'.capacity

refill-Refilled : (rl : RateLimiter) (now : ℕ) → Refilled rl (refill rl now)
unfolding refill
refill-Refilled rl now = elim (Bool-cases (ltb rl.last_tick now)) [
  | inr e ↦ simp e (record {
    rate = refl;
    size = refl;
    forward = omega arith;
    added = omega arith;
    held = λ h. h;
  })
  | inl e ↦ simp e (record {
    rate = refl;
    size = refl;
    forward = omega (arith, ltb→lt rl.last_tick now e);
    added = ground arith;
    held = λ h. ground arith;
  })
]

spent :
    (k t t₁ l l₁ end rate : ℕ)
    → t₁ ≤ t + (l₁ - l) * rate
    → l ≤ l₁
    → l₁ ≤ end
    → k ≤ t₁ + (end - l₁) * rate
    → k ≤ t + (end - l) * rate
spent k t t₁ l l₁ end rate a b c d =
    let both : (end - l) * rate ≡ (l₁ - l) * rate + (end - l₁) * rate =
      ap (λ (z : ℕ). z * rate) {x = end - l} {y = (l₁ - l) + (end - l₁)} (omega arith)
      ∙ add-mul (l₁ - l) (end - l₁) rate in
    omega (arith, both)

later-All :
    (start end : ℕ) (times : List ℕ)
    → All (λ t. (start ≤ t) × (t ≤ end)) times
    → All (λ t. t ≤ end) times
later-All start end [] a = tt
later-All start end (t ∷ ts) (b, a) = (b.1, later-All start end ts a)

paid_on : (p m t u d : ℕ) → p + t ≡ u → m ≤ t + d → p + m ≤ u + d
paid_on p m t u d a b = omega arith

module _ (one : ℕ) where
  abbrev pub count_if : Bool → ℕ → ℕ
  count_if true n = suc n
  count_if false n = n

  -- How many frames are admitted of those that arrive at the given times.
  unfoldable pub admitted : Option RateLimiter → List ℕ → ℕ
  admitted rl [] = 0
  admitted rl (now ∷ times) = let (rl', ok) = allow one rl now in count_if ok (admitted rl' times)

  -- The limiter after these arrivals.
  unfoldable pub after : Option RateLimiter → List ℕ → Option RateLimiter
  after rl [] = rl
  after rl (now ∷ times) = after (allow one rl now).0 times

  -- What is left after the token, with the token.
  record Taken (rl : RateLimiter) (r : RateLimiter × Bool) : Type 0 where
    tick : r.0.last_tick ≡ rl.last_tick
    rate : r.0.refill_rate ≡ rl.refill_rate
    paid : count_if r.1 0 * one + r.0.tokens ≡ rl.tokens

  take_token-Taken : (rl : RateLimiter) → Taken rl (take_token one rl)
  unfolding take_token
  take_token-Taken rl = elim (Bool-cases (leb one rl.tokens)) [
    | inl e ↦ simp e (record { tick = refl; rate = refl; paid = ground (arith, e) })
    | inr e ↦ simp e (record { tick = refl; rate = refl; paid = ground arith })
  ]

  refill-le :
      (rl : RateLimiter) (now end : ℕ)
      → now ≤ end
      → rl.last_tick ≤ end
      → (refill rl now).last_tick ≤ end
  unfolding refill
  refill-le rl now end h k = ground arith

  count_if-mul : (ok : Bool) (n : ℕ) → count_if ok n * one ≡ count_if ok 0 * one + n * one
  count_if-mul true n = grind arith
  count_if-mul false n = grind arith

  admitted-le :
      (rl : RateLimiter) (times : List ℕ) (end : ℕ)
      → All (λ t. t ≤ end) times
      → rl.last_tick ≤ end
      → admitted (some rl) times * one ≤ rl.tokens + (end - rl.last_tick) * rl.refill_rate
  unfolding admitted allow
  admitted-le rl [] end a h = omega arith
  admitted-le rl (now ∷ times) end (b, a) h =
      let filled = refill rl now in
      let r = take_token one filled in
      let f = refill-Refilled rl now in
      let t = take_token-Taken filled in
      let within = refill-le rl now end b h in
      let ih = admitted-le r.0 times end a (subst (λ z. z ≤ end) (sym t.tick) within) in
      let m = admitted (some r.0) times in
      let same : (end - r.0.last_tick) * r.0.refill_rate
          ≡ (end - filled.last_tick) * rl.refill_rate =
        ap (λ (z : ℕ). (end - z) * r.0.refill_rate) t.tick
        ∙ ap (λ (z : ℕ). (end - filled.last_tick) * z) (t.rate ∙ f.rate) in
      let bound : m * one ≤ r.0.tokens + (end - filled.last_tick) * rl.refill_rate =
        subst (λ (z : ℕ). m * one ≤ r.0.tokens + z) same ih in
      let total : count_if r.1 0 * one + m * one
          ≤ filled.tokens + (end - filled.last_tick) * rl.refill_rate =
        paid_on (count_if r.1 0 * one) (m * one) r.0.tokens filled.tokens
          ((end - filled.last_tick) * rl.refill_rate) t.paid bound in
      spent (count_if r.1 m * one) rl.tokens filled.tokens rl.last_tick filled.last_tick end
        rl.refill_rate f.added f.forward within
        (subst (λ (z : ℕ). z ≤ filled.tokens + (end - filled.last_tick) * rl.refill_rate)
          (sym (count_if-mul r.1 m)) total)

  -- The bucket of a connection until a time: it holds no more than the burst.
  record Fits (rate burst start : ℕ) (rl : RateLimiter) : Type 0 where
    rate_is : rl.refill_rate ≡ rate
    size_is : rl.capacity ≡ burst
    held : rl.tokens ≤ burst
    before : rl.last_tick ≤ start

  allowed-Fits :
      (rate burst start now : ℕ) (rl : RateLimiter)
      → now ≤ start
      → Fits rate burst start rl
      → Fits rate burst start (take_token one (refill rl now)).0
  unfolding take_token refill
  allowed-Fits rate burst start now rl h f = record {
    rate_is = ground (arith, f.rate_is);
    size_is = ground (arith, f.size_is);
    held = ground (arith, f.held, f.size_is);
    before = ground (arith, f.before, h);
  }

  after-Fits :
      (rate burst start : ℕ) (rl : RateLimiter) (times : List ℕ)
      → All (λ t. t ≤ start) times
      → Fits rate burst start rl
      → (q : RateLimiter) × (after (some rl) times ≡ some q) × Fits rate burst start q
  unfolding after allow
  after-Fits rate burst start rl [] a f = (rl, refl, f)
  after-Fits rate burst start rl (now ∷ times) (b, a) f =
      after-Fits rate burst start (take_token one (refill rl now)).0 times a
        (allowed-Fits rate burst start now rl b f)

  -- Filling up twice at one time is filling up once.
  refill-refill : (rl : RateLimiter) (now : ℕ) → refill (refill rl now) now ≡ refill rl now
  unfolding refill
  refill-refill rl now = ground arith

  admitted-refill :
      (rl : RateLimiter) (now : ℕ) (times : List ℕ)
      → admitted (some rl) (now ∷ times) ≡ admitted (some (refill rl now)) (now ∷ times)
  unfolding admitted allow
  admitted-refill rl now times =
      ap (λ q. count_if (take_token one q).1 (admitted (some (take_token one q).0) times))
        (sym (refill-refill rl now))

  -- What a bucket that is filled up at or after the start of an interval pays for.
  filled-le :
      (rate burst start end now : ℕ) (rl : RateLimiter)
      → start ≤ now
      → now ≤ end
      → Fits rate burst start rl
      → ((refill rl now).tokens ≤ burst)
        × (start ≤ (refill rl now).last_tick)
        × ((refill rl now).last_tick ≤ end)
        × ((refill rl now).refill_rate ≡ rate)
  unfolding refill
  filled-le rate burst start end now rl h k f = (
    ground (arith, f.held, f.size_is),
    ground (arith, f.before, h),
    ground (arith, f.before, h, k),
    ground (arith, f.rate_is),
  )

  interval-le :
      (rate burst start end : ℕ) (rl : RateLimiter) (times : List ℕ)
      → start ≤ end
      → All (λ t. (start ≤ t) × (t ≤ end)) times
      → Fits rate burst start rl
      → admitted (some rl) times * one ≤ burst + (end - start) * rate
  unfolding admitted
  interval-le rate burst start end rl [] k a f = omega arith
  interval-le rate burst start end rl (now ∷ times) k (b, a) f =
      let filled = refill rl now in
      let (held, from, until, same) = filled-le rate burst start end now rl b.0 b.1 f in
      let paid : admitted (some filled) (now ∷ times) * one
          ≤ filled.tokens + (end - filled.last_tick) * filled.refill_rate =
        admitted-le filled (now ∷ times) end (b.1, later-All start end times a) until in
      let spread : (end - filled.last_tick) * rate ≤ (end - start) * rate =
        mul-le-mul_right rate (omega (arith, from)) in
      let refilled : (end - filled.last_tick) * filled.refill_rate
          ≡ (end - filled.last_tick) * rate =
        ap (λ (z : ℕ). (end - filled.last_tick) * z) same in
      subst (λ (n : ℕ). n * one ≤ burst + (end - start) * rate) (sym (admitted-refill rl now times))
        (omega (arith, paid, held, spread, refilled))

  made-Fits :
      (rate burst opened start : ℕ) (rl : RateLimiter)
      → new_rate_limiter rate burst opened ≡ some rl
      → opened ≤ start
      → Fits rate burst start rl
  unfolding new_rate_limiter
  made-Fits rate burst opened start rl made h =
      let fresh : RateLimiter = record {
        capacity = burst;
        refill_rate = rate;
        tokens = burst;
        last_tick = opened;
      } in
      elim (Bool-cases (nat_beq rate 0 || nat_beq burst 0)) [
        | inl e ↦ absurd (ground (arith, e, made))
        | inr e ↦
            subst (Fits rate burst start) {x = fresh} {y = rl} (ground (arith, e, made))
              (record { rate_is = refl; size_is = refl; held = omega arith; before = h })
      ]

  -- Where the limiter is enabled, a connection admits, of the frames that arrive in any interval of
  -- its life, in whatever order and at whatever times, and whatever arrived until then, no more than
  -- the burst and the refill of the interval pay for.
  pub admitted-le-budget :
      (rate burst opened start end : ℕ) (earlier times : List ℕ) (rl : RateLimiter)
      → new_rate_limiter rate burst opened ≡ some rl
      → opened ≤ start
      → start ≤ end
      → All (λ t. t ≤ start) earlier
      → All (λ t. (start ≤ t) × (t ≤ end)) times
      → admitted (after (some rl) earlier) times * one ≤ burst + (end - start) * rate
  admitted-le-budget rate burst opened start end earlier times rl made h k a b =
      let (q, e, f) =
        after-Fits rate burst start rl earlier a (made-Fits rate burst opened start rl made h) in
      subst (λ o. admitted o times * one ≤ burst + (end - start) * rate) (sym e)
        (interval-le rate burst start end q times k b f)
