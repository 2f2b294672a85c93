-- ===== src/Exits/Health/Bench.antt =====
-- How long a failing server is left out (modules/exits/select.go, recordFailure).
use Prim.Native.String.{String}
use native.Mathlib.Nat.{pow-le-pow_right}
use solstein.Base.{
  ℕ, ◌+◌, ◌-◌, ◌*◌, ◌^◌, ◌≤◌, ◌<◌, min, ◌≡◌, refl, ap, ◌∙◌, inl, inr, List, [], ◌∷◌, ◌++◌, length,
  ltb, Bool-cases, arith,
}
use solstein.Exits.Health.{Health, bench_base, bench_max, bench_for, record_failure}

-- Failures one after another, each with its time and reason.
unfoldable pub fail_all : Health → List (ℕ × String) → Health
fail_all h [] = h
fail_all h ((now, reason) ∷ failures) = fail_all (record_failure h now reason).0 failures

shift_le : (n : ℕ) → 2 ^ min n 10 ≤ 1024
shift_le n = pow-le-pow_right (omega arith) {i = min n 10} {j = 10} (omega arith)

bench_for_lem : (n : ℕ) → bench_for (n + 1) ≡ min (bench_base * 2 ^ n) bench_max
unfolding bench_for
bench_for_lem n = elim (Bool-cases (ltb n 11)) [
  | inl few ↦
      let e : 2 ^ min (n + 1 - 1) 10 ≡ 2 ^ n = ap (λ k. 2 ^ k) {y = n} (ground arith) in
      rw e (ground arith)
  | inr many ↦
      let e : 2 ^ min (n + 1 - 1) 10 ≡ 2 ^ 10 = ap (λ k. 2 ^ k) {y = 10} (ground arith) in
      let more : 2 ^ 10 ≤ 2 ^ n = pow-le-pow_right (omega arith) {i = 10} {j = n} (ground arith) in
      rw e (ground (arith, more))
]

fail_all-consecutive :
    (h : Health) (failures : List (ℕ × String))
    → (fail_all h failures).consecutive ≡ h.consecutive + length failures
unfolding fail_all record_failure
fail_all-consecutive h [] = omega arith
fail_all-consecutive h ((now, reason) ∷ failures) =
    omega (arith, fail_all-consecutive (record_failure h now reason).0 failures)

fail_all-append :
    (h : Health) (xs ys : List (ℕ × String)) → fail_all h (xs ++ ys) ≡ fail_all (fail_all h xs) ys
unfolding fail_all
fail_all-append h [] ys = refl
fail_all-append h ((now, reason) ∷ xs) ys = fail_all-append (record_failure h now reason).0 xs ys

-- After a success, or at first, `n` failures and one more bench the server from the last one on, for a
-- minute doubled `n` times or half an hour, whichever is less: the code's limit on the shift never
-- shows, and with it no product reaches 2 ^ 63.
pub benched_until-fail_all :
    (h : Health) (failures : List (ℕ × String)) (now : ℕ) (reason : String)
    → h.consecutive ≡ 0
    → ((fail_all h (failures ++ (now, reason) ∷ [])).benched_until
        ≡ now + min (bench_base * 2 ^ length failures) bench_max)
      × (bench_base * 2 ^ min (length failures) 10 < 2 ^ 63)
unfolding fail_all record_failure
benched_until-fail_all h failures now reason fresh =
    let all = fail_all-append h failures ((now, reason) ∷ []) in
    let count = fail_all-consecutive h failures in
    let is : (fail_all h failures).consecutive + 1 ≡ length failures + 1 = omega arith in
    (
      ap (λ (g : Health). g.benched_until) all
          ∙ ap (λ n. now + bench_for n) is
          ∙ ap (λ n. now + n) (bench_for_lem (length failures)),
      omega (arith, shift_le (length failures)),
    )
