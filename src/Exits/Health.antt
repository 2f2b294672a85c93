-- ===== src/Exits/Health.antt =====
-- What is known about a server (modules/exits/select.go, health). Times are nanoseconds; the zero time,
-- which is before all others, is 0.
pub mod Bench
use Prim.Native.String.{String}
use solstein.Base.{
  ℕ, suc, ◌+◌, ◌-◌, ◌*◌, ◌^◌, min, Bool, true, false, Option, none, some, List, [], ◌∷◌, ◌++◌, ltb,
  leb, if◌then◌else◌, length,
}

-- One minute, thirty minutes, one hour and one hour.
abbrev pub bench_base : ℕ
bench_base = 60 * 1000000000

abbrev pub bench_max : ℕ
bench_max = 30 * 60 * 1000000000

abbrev pub failure_memory : ℕ
failure_memory = 60 * 60 * 1000000000

abbrev pub rotation : ℕ
rotation = 60 * 60 * 1000000000

pub record Health : Type 0 where
  pub consecutive : ℕ
  pub benched_until : ℕ
  pub failures : List ℕ
  pub last_error : String

-- A server that nothing is known about is nil.
unfoldable pub benched : Option Health → ℕ → Bool
benched none now = false
benched (some h) now = ltb now h.benched_until

-- The failures that still count.
unfoldable pub remembered : ℕ → List ℕ → List ℕ
remembered now [] = []
remembered now (at ∷ failures) =
    let rest = remembered now failures in if ltb (now - at) failure_memory then at ∷ rest else rest

unfoldable pub recent_failures : Option Health → ℕ → ℕ
recent_failures none now = 0
recent_failures (some h) now = length (remembered now h.failures)

-- The bench for a number of failures in a row.
unfoldable pub bench_for : ℕ → ℕ
bench_for consecutive =
    let bench = bench_base * 2 ^ min (consecutive - 1) 10 in
    if ltb bench_max bench then bench_max else bench

unfoldable pub record_failure : Health → ℕ → String → Health × ℕ
record_failure h now reason =
    let bench = bench_for (h.consecutive + 1) in
    (
      record {
        consecutive = h.consecutive + 1;
        benched_until = now + bench;
        last_error = reason;
        failures = remembered now h.failures ++ now ∷ [];
      },
      bench,
    )

unfoldable pub record_success : Health → Health
record_success h = record h { consecutive = 0; benched_until = 0 }
