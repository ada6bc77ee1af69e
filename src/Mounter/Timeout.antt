-- ===== src/Mounter/Timeout.antt =====
-- pkg/csi/zerofs.go: `podReadyTimeout`, and durations as int64 nanoseconds.
pub mod Exact
use zerofs_csi_driver.Base.{
  ℕ, ◌+◌, ◌-◌, ◌*◌, ◌%◌, ◌^◌, ltb, Option, none, some, Str, [], ◌∷◌, codes, trim_space,
  if◌then◌else◌,
}
use zerofs_csi_driver.Base.Text.{Dict, value_of}
use zerofs_csi_driver.Base.Text.Decimal.{ℤ, pos, negsuc, parse_int}

-- The int64 with the bits of `n`.
abbrev pub wrap_int64 : ℕ → ℤ
wrap_int64 n =
    if ltb (n % 2 ^ 64) (2 ^ 63) then pos (n % 2 ^ 64) else negsuc (2 ^ 64 - 1 - n % 2 ^ 64)

-- `time.Duration(secs) * time.Second`
pub seconds : ℕ → ℤ
seconds n = wrap_int64 (n * 10 ^ 9)

abbrev pub default_seconds : ℕ
default_seconds = 120

-- What `Atoi` made of the entry; an error and a number that is not positive give the default.
seconds_or_default : Option ℤ → ℕ
seconds_or_default none = default_seconds
seconds_or_default (some (pos n)) = if ltb 0 n then n else default_seconds
seconds_or_default (some (negsuc n)) = default_seconds

timeout_of : Str → ℤ
unfolding seconds_or_default seconds
timeout_of [] = seconds default_seconds
timeout_of (c ∷ raw) = seconds (seconds_or_default (parse_int (c ∷ raw)))

unfoldable pub pod_ready_timeout : Dict → ℤ
unfolding timeout_of
pod_ready_timeout config =
    timeout_of (trim_space (value_of (codes "podReadyTimeoutSeconds") config))
