-- ===== src/Mounter/Timeout/Exact.antt =====
-- When the timeout for a pod is the one that was configured.
use zerofs_csi_driver.Base.{
  ℕ, ◌≡◌, ◌≢◌, refl, ◌*◌, ◌%◌, ◌<◌, ◌≤◌, ltb, ◌↔◌, some, [], ◌∷◌, Str, codes, trim_space, arith,
  Bool-cases, inl, inr,
}
use zerofs_csi_driver.Base.Text.{Dict, value_of}
use zerofs_csi_driver.Base.Text.Decimal.{pos, parse_int}
use zerofs_csi_driver.Mounter.Timeout.{seconds, seconds_or_default, timeout_of, pod_ready_timeout}

seconds-exact : (n : ℕ) → n ≤ 9223372036 → seconds n ≡ pos (n * 1000000000)
unfolding seconds
seconds-exact n h = ground arith

seconds-wraps : (n : ℕ) → 9223372036 < n → seconds n ≢ pos (n * 1000000000)
unfolding seconds
seconds-wraps n h =
    elim (Bool-cases (ltb (n * 1000000000 % 18446744073709551616) 9223372036854775808)) [
      | inl e ↦ rw e (λ p. ground arith)
      | inr e ↦ rw e (λ p. absurd (cc))
    ]

entry-timeout :
    (entry : Str) (n : ℕ)
    → entry ≢ []
    → 0 < n
    → parse_int entry ≡ some (pos n)
    → timeout_of entry ≡ seconds n
unfolding timeout_of seconds_or_default
entry-timeout [] n h k e = absurd (h refl)
entry-timeout (c ∷ s) n h k e = rw e (ground arith)

parse_int-not_empty : (entry : Str) (n : ℕ) → parse_int entry ≡ some (pos n) → entry ≢ []
unfolding parse_int
parse_int-not_empty [] n e = λ _. absurd (cc)
parse_int-not_empty (c ∷ s) n e = λ k. absurd (cc)

-- If the entry podReadyTimeoutSeconds, without white space around it, is a positive number n, then the
-- timeout is n * 10^9 nanoseconds if n is at most 9223372036, and is not if n is greater.
pub pod_ready_timeout-exact :
    (config : Dict) (n : ℕ)
    → parse_int (trim_space (value_of (codes "podReadyTimeoutSeconds") config)) ≡ some (pos n)
    → 0 < n
    → (n ≤ 9223372036) ↔ (pod_ready_timeout config ≡ pos (n * 1000000000))
unfolding pod_ready_timeout
pod_ready_timeout-exact config n e h =
    let entry = trim_space (value_of (codes "podReadyTimeoutSeconds") config) in
    rw (entry-timeout entry n (parse_int-not_empty entry n e) h e) (
      (seconds-exact n),
      λ p. elim (Bool-cases (ltb 9223372036 n)) [
        | inl big ↦ absurd (seconds-wraps n (ground arith) p)
        | inr small ↦ ground arith
      ],
    )
