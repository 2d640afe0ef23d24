-- ===== src/Auth/Configured.antt =====
-- The credentials that are valid are those that are configured.
use payments_boilerplate.Base.{
  ◌≡◌, inl, inr, refl, ap, true, String, List, [], ◌∷◌, map, eqb, eqb_iff, ◌==◌, str_eq_iff,
  Bool-cases, arith, All, Result, ok, bind-ok, guard-ok, map_error,
}
use payments_boilerplate.Auth.{
  Bytes, Mac, ApiKeyVerifier, Error, is_seen, some_keys, check_keys, new_api_key_verifier,
  constant_time_compare, any_tag, valid,
}

compare_refl : (a : Bytes) → constant_time_compare a a ≡ true
unfolding constant_time_compare
compare_refl [] = refl
compare_refl (a ∷ xs) = ground (arith, compare_refl xs)

pub compare-eq : (a b : Bytes) → constant_time_compare a b ≡ true → a ≡ b
unfolding constant_time_compare
compare-eq [] [] h = refl
compare-eq (a ∷ xs) (b ∷ ys) h = elim (Bool-cases (eqb a b)) [
  | inl same ↦
      rw ((eqb_iff a b).0 same) (ap (λ (zs : Bytes). b ∷ zs) (compare-eq xs ys (rw same at h)))
  | inr other ↦ absurd (cc (rw other at h))
]
compare-eq [] (b ∷ ys) h = absurd (cc h)
compare-eq (a ∷ xs) [] h = absurd (cc h)

-- No key has the tag of the candidate unless it is the candidate.
abbrev pub NoCollision : Mac → Bytes → List String → String → Type 0
NoCollision mac secret keys candidate =
    All (λ (key : String). mac secret candidate ≡ mac secret key → key ≡ candidate) keys

any_tag-is_seen :
    (mac : Mac) (secret : Bytes) (candidate : String) (keys : List String)
    → NoCollision mac secret keys candidate
    → any_tag (mac secret candidate) (map (mac secret) keys) ≡ is_seen candidate keys
unfolding any_tag
any_tag-is_seen mac secret candidate [] apart = refl
any_tag-is_seen mac secret candidate (key ∷ keys) (alone, apart) =
    let rest = any_tag-is_seen mac secret candidate keys apart in
    elim (Bool-cases (constant_time_compare (mac secret candidate) (mac secret key))) [
      | inl same ↦
          let is_key = alone (compare-eq (mac secret candidate) (mac secret key) same) in
          rw (same, (str_eq_iff key candidate).1 is_key) refl
      | inr other ↦ elim (Bool-cases (key == candidate)) [
        | inr differs ↦ rw (other, differs) rest
        | inl is_key ↦ absurd (
            cc (
              rw ((str_eq_iff key candidate).0 is_key) at other,
              compare_refl (mac secret candidate),
            ))
      ]
    ]

built :
    (mac : Mac) (random : Result String Bytes) (keys : List String) (v : ApiKeyVerifier)
    → new_api_key_verifier mac random keys ≡ ok v
    → v.tags ≡ map (mac v.secret) keys
unfolding new_api_key_verifier
built mac random keys v h =
    let (_, h1) = guard-ok (some_keys keys) _ _ v h in
    let (_, _, h2) = bind-ok (check_keys [] keys) _ v h1 in
    let (secret, _, h3) = bind-ok (map_error Error.no_secret random) _ v h2 in made secret h3
  where
    made :
        (secret : Bytes)
        → Path
            (Result Error ApiKeyVerifier)
            (ok (record { secret = secret; tags = map (mac secret) keys }))
            (ok v)
        → v.tags ≡ map (mac v.secret) keys
    made secret h = cc h

-- A credential is valid exactly if it is one of the configured keys, as long as its tag is no other
-- key's.
pub valid-is_seen :
    (mac : Mac) (random : Result String Bytes) (keys : List String) (v : ApiKeyVerifier)
    (candidate : String)
    → new_api_key_verifier mac random keys ≡ ok v
    → NoCollision mac v.secret keys candidate
    → valid mac v candidate ≡ is_seen candidate keys
unfolding valid
valid-is_seen mac random keys v candidate h apart =
    rw (built mac random keys v h) (any_tag-is_seen mac v.secret candidate keys apart)
