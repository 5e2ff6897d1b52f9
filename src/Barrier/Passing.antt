-- ===== src/Barrier/Passing.antt =====
-- Who passes a barrier.
use mosito.Base.{ℕ, suc, ◌+◌, ◌≤◌, ◌<◌, ◌≡◌, refl, arith, ◌⊎◌}
use mosito.Barrier.{Barrier, create_barrier, arrive, wake}

-- The barriers that `n` threads reach from `b`, with `w` waits that ended without a broadcast.
pub data Steps (b : Barrier) : ℕ → ℕ → Barrier → Type 0 where
  here : Steps b 0 0 b
  arrives : {c : Barrier} {n w : ℕ} → Steps b n w c → Steps b (suc n) w (arrive c)
  wakes : {c : Barrier} {n w : ℕ} → Steps b n w c → 0 < c.waiting → Steps b n (suc w) (wake c)

pub record Passing (limit n w : ℕ) (c : Barrier) : Type 0 where
  pub same_limit : c.nthreads ≡ limit
  pub arrived : c.ncounts ≡ n
  pub all_there : c.waiting + c.passed ≡ n
  pub who : ((n < limit) × (c.passed ≡ w)) ⊎ ((limit ≤ n) × (c.waiting ≡ 0))

arrive-Passing :
    (limit n w : ℕ) (c : Barrier) → Passing limit n w c → Passing limit (suc n) w (arrive c)
unfolding arrive
arrive-Passing limit n w c p = record {
  same_limit = ground (arith, p.same_limit);
  arrived = ground (arith, p.arrived);
  all_there = ground (arith, p.all_there);
  who = ground (arith, p.who, p.arrived, p.same_limit, p.all_there);
}

wake-Passing :
    (limit n w : ℕ) (c : Barrier)
    → 0 < c.waiting
    → Passing limit n w c
    → Passing limit n (suc w) (wake c)
unfolding wake
wake-Passing limit n w c h p = record {
  same_limit = p.same_limit;
  arrived = p.arrived;
  all_there = omega (arith, p.all_there, h);
  who = ground (arith, p.who, h);
}

reached : {limit n w : ℕ} {c : Barrier} → Steps (create_barrier limit) n w c → Passing limit n w c
unfolding create_barrier
reached here = record { same_limit = refl; arrived = refl; all_there = refl; who = ground arith }
reached (arrives {c} {n} {w} s) = arrive-Passing _ n w c (reached s)
reached (wakes {c} {n} {w} s h) = wake-Passing _ n w c h (reached s)

-- After `n` arrivals at a new barrier, and `w` waits that ended without a broadcast, every thread
-- waits or has passed. While fewer than the limit have arrived, exactly those `w` have passed; from
-- then on nobody waits, also of those that arrive later: the barrier does not close again.
pub Steps-Passing :
    (limit n w : ℕ) (c : Barrier) → Steps (create_barrier limit) n w c → Passing limit n w c
Steps-Passing limit n w c s = reached s
