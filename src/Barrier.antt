-- ===== src/Barrier.antt =====
-- src/common/m_synchronize.cpp: `Barrier`. A call of `arrive` runs under the lock up to its wait, and
-- is one step. A wait that returns without a broadcast, as the thread library allows, is another step:
-- the code waits under an `if`.
pub mod Passing
use mosito.Base.{ℕ, zero, suc, ◌+◌, ◌-◌, ltb, if◌then◌else◌}

-- The last two fields count the threads that wait in `arrive` and those that have returned from it.
pub record Barrier : Type 0 where
  pub nthreads : ℕ
  pub ncounts : ℕ
  pub waiting : ℕ
  pub passed : ℕ

unfoldable pub create_barrier : ℕ → Barrier
create_barrier n = record { nthreads = n; ncounts = 0; waiting = 0; passed = 0 }

unfoldable pub arrive : Barrier → Barrier
arrive b =
    let count = b.ncounts + 1 in
    if ltb count b.nthreads
    then record b { ncounts = count; waiting = b.waiting + 1 }
    else record b { ncounts = count; waiting = 0; passed = b.passed + b.waiting + 1 }

unfoldable pub wake : Barrier → Barrier
wake b = record b { waiting = b.waiting - 1; passed = b.passed + 1 }
