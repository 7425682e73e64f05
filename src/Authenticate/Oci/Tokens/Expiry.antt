-- ===== src/Authenticate/Oci/Tokens/Expiry.antt =====
-- When a converted token expires.
use credential_helper.Base.{
  ℕ, zero, suc, ◌+◌, ◌≡◌, ◌≤◌, ◌<◌, refl, ap, some, [], ◌⊎◌, arith, inl, inr,
}
use native.Mathlib.Decide.{dec_le}
use credential_helper.Base.Int.{pos}
use credential_helper.Api.{Rfc3339, IsFaithfulTime}
use credential_helper.Authenticate.Oci.Tokens.{
  BasicAuthToken, issued, nanoseconds, add_duration, add_seconds, convert_basic,
}

-- A duration that fits is added as it is.
add_seconds_within : (t n : ℕ) → n ≤ 9223372036 → add_seconds t (pos n) ≡ t + n
unfolding nanoseconds add_duration
add_seconds_within t n fits = ground arith

-- No duration is longer than 9223372036 seconds.
add_seconds_over : (t n : ℕ) → 9223372036 < n → add_seconds t (pos n) < t + n
unfolding nanoseconds add_duration
add_seconds_over t n over = ground arith

module _ (time : Rfc3339) (faithful : IsFaithfulTime time) (now : ℕ) where
  issued_now : issued time now [] ≡ now
  issued_now = ground (arith, faithful.parse-format now)

  -- If times are read back as they are written, a token of a basic exchange with no time of issue
  -- and an `expires_in` that is not negative expires that many seconds after it was received, and
  -- after 60 seconds if that is 0; where the duration overflows, it expires earlier than that.
  pub convert_basic-expiry :
      (b : BasicAuthToken) (n : ℕ)
      → b.issued_at ≡ []
      → b.expires_in ≡ pos n
      → ((n ≡ 0) × ((convert_basic time now b).expiry ≡ some (now + 60)))
        ⊎ (((1 ≤ n) × (n ≤ 9223372036) × ((convert_basic time now b).expiry ≡ some (now + n)))
            ⊎ ((9223372036 < n)
                × (t : ℕ) × ((convert_basic time now b).expiry ≡ some t)
                × (t < now + n)))
  unfolding convert_basic
  convert_basic-expiry b zero i e =
      inl (refl, rw (i, e, issued_now) (ap some (add_seconds_within now 60 (omega arith))))
  convert_basic-expiry b (suc n) i e = elim (dec_le (suc n) 9223372036) [
    | yes fits ↦ inr (
        inl (
          omega arith,
          fits,
          rw (i, e, issued_now) (ap some (add_seconds_within now (suc n) fits)),
        ))
    | no over ↦ inr (
        inr (
          omega (arith, over),
          add_seconds now (pos (suc n)),
          rw (i, e, issued_now),
          add_seconds_over now (suc n) (omega (arith, over)),
        ))
  ]
