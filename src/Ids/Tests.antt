-- ===== src/Ids/Tests.antt =====
-- Identifiers at fixed bytes.
use payments_boilerplate.Base.{ℕ, ◌<◌, ◌≡◌, refl, String, List, [], ◌∷◌, some, All, arith, ok, err}
use payments_boilerplate.Ids.{
  hex_digit, encode_to_string, digit_value, decode_string, after_prefix, new_id, invalid_id,
  validate_id, validate_id-new_id,
}

abbrev bytes : List ℕ
bytes = 0 ∷ 1 ∷ 16 ∷ 255 ∷ 171 ∷ 205 ∷ 9 ∷ 90 ∷ 0 ∷ 7 ∷ 128 ∷ 64 ∷ 33 ∷ 254 ∷ 100 ∷ 12 ∷ []

bytes_small : All (λ (b : ℕ). b < 256) bytes
bytes_small = (
  omega arith,
  (
    omega arith,
    (
      omega arith,
      (
        omega arith,
        (
          omega arith,
          (
            omega arith,
            (
              omega arith,
              (
                omega arith,
                (
                  omega arith,
                  (
                    omega arith,
                    (
                      omega arith,
                      (omega arith, (omega arith, (omega arith, (omega arith, (omega arith, tt))))),
                    ),
                  ),
                ),
              ),
            ),
          ),
        ),
      ),
    ),
  ),
)

abbrev id : String
id = "ord_000110ffabcd095a0007804021fe640c"

generated : new_id "ord_" (ok bytes) ≡ ok id
unfolding new_id encode_to_string hex_digit
generated = refl

validate_id-new_id_example :
    (validate_id "ord_" id ≡ ok tt)
    × ((rest : String) × (after_prefix "ord_" id ≡ some rest) × (decode_string rest ≡ some bytes))
validate_id-new_id_example = validate_id-new_id "ord_" id bytes bytes_small refl generated

-- Another prefix, a short text and a letter that is no digit are refused.
other_prefix : validate_id "pay_" id ≡ err invalid_id
unfolding validate_id after_prefix
other_prefix = refl

short : validate_id "ord_" "ord_00" ≡ err invalid_id
unfolding validate_id
short = refl

no_digit : validate_id "ord_" "ord_z00110ffabcd095a0007804021fe640c" ≡ err invalid_id
unfolding validate_id after_prefix decode_string digit_value
no_digit = refl
