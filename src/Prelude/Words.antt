-- ===== src/Prelude/Words.antt =====
-- Rust's checked and saturating additions on `u64` and `u32` counters.
use Prim.Native.Nat.{ℕ, ◌+◌, ◌<◌}
use mathlib.Core.Path.{◌≡◌}
use mathlib.Core.Option.{Option, none, some}
use native.Mathlib.Omega.{arith}
use mistralrs_proxy.Prelude.Tests.{ltb, if◌then◌else◌}

abbrev pub u64_max : ℕ
u64_max = 18446744073709551615

abbrev pub u32_max : ℕ
u32_max = 4294967295

-- `x.checked_add(1)` on a `u64`.
abbrev pub checked_increment : ℕ → Option ℕ
checked_increment n = if ltb n u64_max then some (n + 1) else none

-- `x.saturating_add(1)` at a type whose largest value is `limit`.
abbrev pub saturating_increment : ℕ → ℕ → ℕ
saturating_increment limit n = if ltb n limit then n + 1 else n

pub checked_increment_lt : (n : ℕ) → n < u64_max → checked_increment n ≡ some (n + 1)
checked_increment_lt n h = ground arith
