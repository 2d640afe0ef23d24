-- ===== src/Auth/Tests.antt =====
-- Two configured keys, and the theorem at a third.
use payments_boilerplate.Base.{
  ◌≡◌, refl, true, String, [], ◌∷◌, ok, ◌==◌, trim_space, if◌then◌else◌,
}
use payments_boilerplate.Auth.{
  Mac, ApiKeyVerifier, is_seen, check_keys, new_api_key_verifier, constant_time_compare, any_tag,
  valid,
}
use payments_boilerplate.Auth.Configured.{NoCollision, valid-is_seen}

abbrev one : String
one = "sk_0123456789abcdef0123456789abcdef"

abbrev two : String
two = "sk_fedcba9876543210fedcba9876543210"

-- A tag that tells the keys apart.
abbrev mac : Mac
mac secret s = if s == one then 1 ∷ secret else (if s == two then 2 ∷ secret else 3 ∷ secret)

abbrev verifier : ApiKeyVerifier
verifier = record { secret = 7 ∷ []; tags = mac (7 ∷ []) one ∷ mac (7 ∷ []) two ∷ [] }

made : new_api_key_verifier mac (ok (7 ∷ [])) (one ∷ two ∷ []) ≡ ok verifier
unfolding new_api_key_verifier check_keys trim_space ◌==◌
made = refl

apart : NoCollision mac (7 ∷ []) (one ∷ two ∷ []) two
unfolding ◌==◌
apart = (λ h. absurd (cc h), (λ h. refl, tt))

valid-is_seen_example : valid mac verifier two ≡ is_seen two (one ∷ two ∷ [])
valid-is_seen_example = valid-is_seen mac (ok (7 ∷ [])) (one ∷ two ∷ []) verifier two made apart

second_is_valid : valid mac verifier two ≡ true
unfolding valid any_tag constant_time_compare ◌==◌
second_is_valid = refl
