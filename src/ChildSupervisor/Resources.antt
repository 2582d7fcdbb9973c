-- ===== src/ChildSupervisor/Resources.antt =====
-- `resource_usage_from_components` of crates/benchplane-core/src/child_supervisor.rs. The
-- components are `i64`.
use benchplane.Base.{
  ℕ, ◌+◌, ◌*◌, ◌<◌, ◌≡◌, ◌↔◌, ℤ, pos, negsuc, String, Option, none, some, ltb, if◌then◌else◌,
  Result, ok, ok_or, ◌>>=◌, and_then, checked, checked_mul_u64, u64_mod, arith,
}
use benchplane.Schema.Evidence.{ProcessResources}

abbrev pub checked_add_u64 : ℕ → ℕ → Option ℕ
checked_add_u64 a b = checked u64_mod (a + b)

-- The conversions of the non-negative components to `u64` cannot fail.
unfoldable pub time_micros : ℤ → ℤ → Option ℕ
time_micros (pos seconds) (pos micros) =
    if ltb micros 1000000
    then and_then (checked_mul_u64 seconds 1000000) (λ s. checked_add_u64 s micros)
    else none
time_micros _ _ = none

abbrev to_u64 : ℤ → Option ℕ
to_u64 (pos n) = some n
to_u64 (negsuc n) = none

unfoldable pub resource_usage_from_components : ℤ → ℤ → ℤ → ℤ → ℤ → Result ProcessResources String
resource_usage_from_components user_seconds user_micros system_seconds system_micros peak_rss_kib =
    do
      user ←
          ok_or (time_micros user_seconds user_micros) "helper user CPU time is not representable"
      system ←
          ok_or (time_micros system_seconds system_micros)
            "helper system CPU time is not representable"
      cpu_time_micros ← ok_or (checked_add_u64 user system) "helper total CPU time overflowed"
      peak_rss_bytes ←
          ok_or (and_then (to_u64 peak_rss_kib) (λ v. checked_mul_u64 v 1024))
            "helper peak RSS is not representable in bytes"
      ok (record { cpu_time_micros = cpu_time_micros; peak_rss_bytes = peak_rss_bytes })

-- what the components represent: no negative one represents anything
abbrev pub Represents : ℤ → ℤ → ℤ → ℤ → ℤ → ProcessResources → Type 0
Represents (pos a) (pos b) (pos c) (pos d) (pos k) r =
    (b < 1000000)
    × (d < 1000000)
    × (r.cpu_time_micros ≡ (a + c) * 1000000 + b + d)
    × (r.peak_rss_bytes ≡ k * 1024)
    × (r.cpu_time_micros < u64_mod)
    × (r.peak_rss_bytes < u64_mod)
Represents _ _ _ _ _ r = ⊥

-- The conversion gives a result exactly for components that are not negative, with fewer than a
-- million microseconds beside each number of seconds, whose total time in microseconds and whose
-- peak in bytes fit 64 bits; it is then this time and this peak, without loss.
pub resource_usage_from_components_iff :
    (us um ss sm peak : ℤ) (r : ProcessResources)
    → (resource_usage_from_components us um ss sm peak ≡ ok r) ↔ Represents us um ss sm peak r
unfolding resource_usage_from_components time_micros
resource_usage_from_components_iff (pos a) (pos b) (pos c) (pos d) (pos k) r = ground arith
resource_usage_from_components_iff (negsuc a) um ss sm peak r = ground arith
resource_usage_from_components_iff (pos a) (negsuc b) ss sm peak r = ground arith
resource_usage_from_components_iff (pos a) (pos b) (negsuc c) sm peak r = ground arith
resource_usage_from_components_iff (pos a) (pos b) (pos c) (negsuc d) peak r = ground arith
resource_usage_from_components_iff (pos a) (pos b) (pos c) (pos d) (negsuc k) r = ground arith
