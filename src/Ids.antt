-- ===== src/Ids.antt =====
-- Public identifiers: id.go of internal/domain/orders, internal/domain/payments and
-- internal/domain/webhooks, with the two functions of encoding/hex that they call. The random bytes
-- are an argument.
mod Tests
use Prim.Native.Char.{Char, code, len_utf8}
use Prim.Native.String.{◌++◌, len}
use Prim.Native.String.len
use text.Mathlib.TextPositions.{len-append}
use text.Mathlib.TextLemmas.{cons-append, nil-append}
use payments_boilerplate.Base.{
  ℕ, ◌+◌, ◌-◌, ◌*◌, ◌/◌, ◌%◌, ◌≤◌, ◌<◌, ◌≡◌, refl, sym, ap, ◌∙◌, zero, suc, inl, inr, Bool, true,
  false, not, ◌&&◌, String, List, [], ◌∷◌, Option, none, some, leb, ltb, eqb, is_some,
  if◌then◌else◌, length, All, arith, Bool-cases, Result, ok, err, ◌>>=◌, ◌>>◌, guard,
}

-- `hextable` of encoding/hex.
abbrev hextable : List Char
hextable =
    "0" ∷ "1" ∷ "2" ∷ "3" ∷ "4" ∷ "5" ∷ "6" ∷ "7" ∷ "8" ∷ "9" ∷ "a" ∷ "b" ∷ "c" ∷ "d" ∷ "e" ∷ "f"
    ∷ []

abbrev nth : List Char → ℕ → Char
nth [] n = "f"
nth (c ∷ cs) zero = c
nth (c ∷ cs) (suc n) = nth cs n

unfoldable pub hex_digit : ℕ → Char
hex_digit n = nth hextable n

-- hex.EncodeToString.
unfoldable pub encode_to_string : List ℕ → String
encode_to_string [] = String.[]
encode_to_string (b ∷ bs) =
    String.◌∷◌ (hex_digit (b / 16)) (String.◌∷◌ (hex_digit (b % 16)) (encode_to_string bs))

unfoldable pub digit_value : Char → Option ℕ
digit_value c =
    if leb b'0' (code c) && leb (code c) b'9'
    then some (code c - b'0')
    else (if leb b'a' (code c) && leb (code c) b'f'
        then some (code c - b'a' + 10)
        else (if leb b'A' (code c) && leb (code c) b'F' then some (code c - b'A' + 10) else none))

abbrev pair : Option ℕ → Option ℕ → Option (List ℕ) → Option (List ℕ)
pair (some high) (some low) (some bytes) = some ((16 * high + low) ∷ bytes)
pair _ _ _ = none

-- hex.DecodeString, without what it returns beside an error.
unfoldable pub decode_string : String → Option (List ℕ)
decode_string String.[] = some []
decode_string (String.◌∷◌ c String.[]) = none
decode_string (String.◌∷◌ c (String.◌∷◌ d s)) =
    pair (digit_value c) (digit_value d) (decode_string s)

-- The digits of a table have the values from a number on.
abbrev IsNumbered : ℕ → List Char → Type 0
IsNumbered k [] = Unit
IsNumbered k (c ∷ cs) = (digit_value c ≡ some k) × ((len_utf8 c ≡ 1) × IsNumbered (suc k) cs)

nth-IsNumbered :
    (k n : ℕ) (cs : List Char)
    → IsNumbered k cs
    → n < length cs
    → (digit_value (nth cs n) ≡ some (k + n)) × (len_utf8 (nth cs n) ≡ 1)
nth-IsNumbered k n [] h low = absurd (omega (arith, low))
nth-IsNumbered k zero (c ∷ cs) (h, (one, hs)) low = (h ∙ ap some (omega arith), one)
nth-IsNumbered k (suc n) (c ∷ cs) (h, (one, hs)) low =
    let (value, one) = nth-IsNumbered (suc k) n cs hs (omega (arith, low)) in
    (value ∙ ap some (omega arith), one)

hextable-IsNumbered : IsNumbered 0 hextable
unfolding digit_value
hextable-IsNumbered = (
  refl,
  (
    refl,
    (
      refl,
      (
        refl,
        (
          refl,
          (
            refl,
            (
              refl,
              (
                refl,
                (
                  refl,
                  (
                    refl,
                    (
                      refl,
                      (
                        refl,
                        (
                          refl,
                          (
                            refl,
                            (
                              refl,
                              (
                                refl,
                                (
                                  refl,
                                  (
                                    refl,
                                    (
                                      refl,
                                      (
                                        refl,
                                        (
                                          refl,
                                          (
                                            refl,
                                            (
                                              refl,
                                              (
                                                refl,
                                                (
                                                  refl,
                                                  (
                                                    refl,
                                                    (
                                                      refl,
                                                      (refl, (refl, (refl, (refl, (refl, tt))))),
                                                    ),
                                                  ),
                                                ),
                                              ),
                                            ),
                                          ),
                                        ),
                                      ),
                                    ),
                                  ),
                                ),
                              ),
                            ),
                          ),
                        ),
                      ),
                    ),
                  ),
                ),
              ),
            ),
          ),
        ),
      ),
    ),
  ),
)

digit_value-hex_digit : (n : ℕ) → n < 16 → digit_value (hex_digit n) ≡ some n
unfolding hex_digit
digit_value-hex_digit n h =
    (nth-IsNumbered 0 n hextable hextable-IsNumbered h).0 ∙ ap some (omega arith)

len_utf8-hex_digit : (n : ℕ) → n < 16 → len_utf8 (hex_digit n) ≡ 1
unfolding hex_digit
len_utf8-hex_digit n h = (nth-IsNumbered 0 n hextable hextable-IsNumbered h).1

decode_string-encode_to_string :
    (bytes : List ℕ)
    → All (λ (b : ℕ). b < 256) bytes
    → decode_string (encode_to_string bytes) ≡ some bytes
unfolding decode_string encode_to_string
decode_string-encode_to_string [] h = refl
decode_string-encode_to_string (b ∷ bs) (h, hs) =
    rw
      (
        digit_value-hex_digit (b / 16) (omega (arith, h)),
        digit_value-hex_digit (b % 16) (omega (arith, h)),
        decode_string-encode_to_string bs hs,
      )
      (ap some (ap (λ n. n ∷ bs) (omega arith)))

-- `strings.HasPrefix`, with what follows the prefix.
unfoldable pub after_prefix : String → String → Option String
after_prefix String.[] s = some s
after_prefix (String.◌∷◌ c p) String.[] = none
after_prefix (String.◌∷◌ c p) (String.◌∷◌ d s) =
    if eqb (code c) (code d) then after_prefix p s else none

-- `NewID`, `newID`: what `rand.Read` returned is the argument.
unfoldable pub new_id : String → Result String (List ℕ) → Result String String
new_id prefix (ok value) = ok (prefix ++ encode_to_string value)
new_id prefix (err e) = err e

pub data Error : Type 0 where
  invalid_id : Error

abbrev decoded : Option (List ℕ) → Result Error (Unit {0})
decoded none = err invalid_id
decoded (some value) = ok tt

abbrev rest_decodes : Option String → Result Error (Unit {0})
rest_decodes none = err invalid_id
rest_decodes (some rest) = decoded (decode_string rest)

-- `ValidateID`, `ValidateEventID`.
unfoldable pub validate_id : String → String → Result Error (Unit {0})
validate_id prefix id =
    if not (eqb (len id) (len prefix + 32))
    then err invalid_id
    else rest_decodes (after_prefix prefix id)

len-encode_to_string :
    (bytes : List ℕ)
    → All (λ (b : ℕ). b < 256) bytes
    → len (encode_to_string bytes) ≡ 2 * length bytes
unfolding encode_to_string
len-encode_to_string [] h = refl
len-encode_to_string (b ∷ bs) (h, hs) =
    let high = len_utf8-hex_digit (b / 16) (omega (arith, h)) in
    let low = len_utf8-hex_digit (b % 16) (omega (arith, h)) in
    rw (len.cons, len.cons, high, low, len-encode_to_string bs hs) (omega arith)

eqb_refl : (n : ℕ) → eqb n n ≡ true
eqb_refl n = ground arith

after_prefix-append : (p s : String) → after_prefix p (p ++ s) ≡ some s
unfolding after_prefix
after_prefix-append String.[] s = rw (nil-append s) refl
after_prefix-append (String.◌∷◌ c p) s =
    rw (cons-append c p s, eqb_refl (code c)) (after_prefix-append p s)

-- An identifier made of 16 random bytes is valid under its own prefix, and what stands after the prefix
-- decodes to those bytes.
pub validate_id-new_id :
    (prefix id : String) (value : List ℕ)
    → All (λ (b : ℕ). b < 256) value
    → length value ≡ 16
    → new_id prefix (ok value) ≡ ok id
    → (validate_id prefix id ≡ ok tt)
      × ((rest : String) × (after_prefix prefix id ≡ some rest) × (decode_string rest ≡ some value))
unfolding new_id validate_id
validate_id-new_id prefix id value small sized made =
    let is_id : prefix ++ encode_to_string value ≡ id = cc in
    let long =
      len-append prefix (encode_to_string value)
      ∙ ap (λ n. len prefix + n) (len-encode_to_string value small ∙ ap (λ n. 2 * n) sized) in
    let text = decode_string-encode_to_string value small in
    let after = after_prefix-append prefix (encode_to_string value) in
    rw (sym is_id) (
      rw (long, eqb_refl (len prefix + 32), after, text) refl,
      (encode_to_string value, after, text),
    )
