-- ===== src/Auth.antt =====
-- internal/platform/auth/apikey.go: the API keys that are configured. HMAC-SHA256 and the random secret
-- are arguments.
pub mod Configured
mod Tests
use Prim.Native.String.{len}
use payments_boilerplate.Base.{
  ℕ, Bool, true, false, ◌&&◌, ◌||◌, not, String, List, [], ◌∷◌, Option, none, some, ltb, eqb, ◌==◌,
  if◌then◌else◌, trim_space, map, Result, ok, err, ◌>>=◌, ◌>>◌, guard, map_error,
}
use payments_boilerplate.Ids.{encode_to_string}

abbrev pub min_api_key_length : ℕ
min_api_key_length = 32

pub data Error : Type 0 where
  no_api_keys invalid_api_key duplicate_api_key : Error
  no_secret : String → Error

-- The bytes of a tag or a secret.
abbrev pub Bytes : Type 0
Bytes = List ℕ

-- HMAC-SHA256 of a text under a secret.
abbrev pub Mac : Type 0
Mac = Bytes → String → Bytes

-- `APIKeyVerifier`.
pub record ApiKeyVerifier : Type 0 where
  pub secret : Bytes
  pub tags : List Bytes

abbrev pub is_seen : String → List String → Bool
is_seen key [] = false
is_seen key (k ∷ ks) = (k == key) || is_seen key ks

-- The loop over the keys, after those that were seen.
unfoldable pub check_keys : List String → List String → Result Error (Unit {0})
check_keys seen [] = ok tt
check_keys seen (key ∷ keys) = do
  guard (not (ltb (len key) min_api_key_length || not (trim_space key == key))) invalid_api_key
  guard (not (is_seen key seen)) duplicate_api_key
  check_keys (key ∷ seen) keys

abbrev pub some_keys : List String → Bool
some_keys [] = false
some_keys (k ∷ ks) = true

-- `NewAPIKeyVerifier`.
unfoldable pub new_api_key_verifier :
    Mac → Result String Bytes → List String → Result Error ApiKeyVerifier
unfolding check_keys
new_api_key_verifier mac random keys = do
  guard (some_keys keys) no_api_keys
  check_keys [] keys
  secret ← map_error no_secret random
  ok (record { secret = secret; tags = map (mac secret) keys })

-- `subtle.ConstantTimeCompare`, as a truth value.
unfoldable pub constant_time_compare : Bytes → Bytes → Bool
constant_time_compare [] [] = true
constant_time_compare (a ∷ xs) (b ∷ ys) = eqb a b && constant_time_compare xs ys
constant_time_compare _ _ = false

-- The loop of `Valid`: all tags are visited.
unfoldable pub any_tag : Bytes → List Bytes → Bool
unfolding constant_time_compare
any_tag tag [] = false
any_tag tag (t ∷ ts) = constant_time_compare tag t || any_tag tag ts

-- `Valid`.
unfoldable pub valid : Mac → ApiKeyVerifier → String → Bool
unfolding any_tag
valid mac v candidate = any_tag (mac v.secret candidate) v.tags

-- `Fingerprint`.
unfoldable pub fingerprint : Mac → ApiKeyVerifier → String → Option String
unfolding valid
fingerprint mac v candidate =
    if not (valid mac v candidate) then none else some (encode_to_string (mac v.secret candidate))
