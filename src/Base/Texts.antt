-- ===== src/Base/Texts.antt =====
-- The functions of Go's `strings` package that the program calls, over texts. A `String` is a list
-- of Unicode scalar values, so a Go string that is no valid UTF-8 has no counterpart here.
use Prim.Native.Nat.{ℕ, zero, suc, ◌+◌, ◌-◌}
use Prim.Native.Char.{Char, code}
use Prim.Native.String.{String}
use mathlib.Core.Path.{◌≡◌, refl}
use mathlib.Core.Bool.{Bool, true, false, ◌&&◌, ◌||◌}
use mathlib.Core.List.{List, [], ◌∷◌}
use native.Mathlib.Omega.{arith}
use payments_boilerplate.Base.Tests.{leb, eqb, if◌then◌else◌}

-- `unicode.IsSpace`.
is_space : Char → Bool
is_space c =
    (leb 0x09 (code c) && leb (code c) 0x0d)
    || (eqb (code c) 0x20
        || (eqb (code c) 0x85
            || (eqb (code c) 0xa0
                || (eqb (code c) 0x1680
                    || ((leb 0x2000 (code c) && leb (code c) 0x200a)
                        || (eqb (code c) 0x2028
                            || (eqb (code c) 0x2029
                                || (eqb (code c) 0x202f
                                    || (eqb (code c) 0x205f || eqb (code c) 0x3000)))))))))

trim_left : String → String
unfolding is_space
trim_left String.[] = String.[]
trim_left (String.◌∷◌ c s) = let rest = trim_left s in if is_space c then rest else String.◌∷◌ c s

-- One character in front of a text whose trailing spaces are gone.
keep_char : Char → String → String
keep_char c String.[] = if is_space c then String.[] else String.◌∷◌ c String.[]
keep_char c (String.◌∷◌ d s) = String.◌∷◌ c (String.◌∷◌ d s)

trim_right : String → String
unfolding is_space keep_char
trim_right String.[] = String.[]
trim_right (String.◌∷◌ c s) = keep_char c (trim_right s)

-- `strings.TrimSpace`.
unfoldable pub trim_space : String → String
unfolding trim_left trim_right
trim_space s = trim_right (trim_left s)

-- The case folding of `strings.EqualFold`, for the letters of ASCII and the two other characters
-- that fold to one of them (the long s and the Kelvin sign).
unfoldable pub fold_char : Char → ℕ
fold_char c =
    if leb b'A' (code c) && leb (code c) b'Z'
    then code c + 32
    else (if eqb (code c) 0x17f then b's' else (if eqb (code c) 0x212a then b'k' else code c))

-- `strings.EqualFold`, on texts whose other letters have no case.
unfoldable pub equal_fold : String → String → Bool
unfolding fold_char
equal_fold String.[] String.[] = true
equal_fold (String.◌∷◌ c s) (String.◌∷◌ d t) = eqb (fold_char c) (fold_char d) && equal_fold s t
equal_fold _ _ = false

pub equal_fold_refl : (s : String) → equal_fold s s ≡ true
unfolding equal_fold
equal_fold_refl String.[] = refl
equal_fold_refl (String.◌∷◌ c s) = ground (arith, equal_fold_refl s)

upper_letters : List Char
upper_letters =
    "A" ∷ "B" ∷ "C" ∷ "D" ∷ "E" ∷ "F" ∷ "G" ∷ "H" ∷ "I" ∷ "J" ∷ "K" ∷ "L" ∷ "M" ∷ "N" ∷ "O" ∷ "P"
    ∷ "Q" ∷ "R" ∷ "S" ∷ "T" ∷ "U" ∷ "V" ∷ "W" ∷ "X" ∷ "Y" ∷ "Z" ∷ []

lower_letters : List Char
lower_letters =
    "a" ∷ "b" ∷ "c" ∷ "d" ∷ "e" ∷ "f" ∷ "g" ∷ "h" ∷ "i" ∷ "j" ∷ "k" ∷ "l" ∷ "m" ∷ "n" ∷ "o" ∷ "p"
    ∷ "q" ∷ "r" ∷ "s" ∷ "t" ∷ "u" ∷ "v" ∷ "w" ∷ "x" ∷ "y" ∷ "z" ∷ []

letter : List Char → ℕ → Char → Char
letter [] n c = c
letter (d ∷ ds) zero c = d
letter (d ∷ ds) (suc n) c = letter ds n c

-- `strings.ToUpper` and `strings.ToLower`, on the letters of ASCII.
unfoldable pub to_upper : String → String
unfolding letter upper_letters
to_upper String.[] = String.[]
to_upper (String.◌∷◌ c s) =
    let rest = to_upper s in
    if leb b'a' (code c) && leb (code c) b'z'
    then String.◌∷◌ (letter upper_letters (code c - b'a') c) rest
    else String.◌∷◌ c rest

unfoldable pub to_lower : String → String
unfolding letter lower_letters
to_lower String.[] = String.[]
to_lower (String.◌∷◌ c s) =
    let rest = to_lower s in
    if leb b'A' (code c) && leb (code c) b'Z'
    then String.◌∷◌ (letter lower_letters (code c - b'A') c) rest
    else String.◌∷◌ c rest

-- `strings.HasPrefix`.
unfoldable pub has_prefix : String → String → Bool
has_prefix s String.[] = true
has_prefix String.[] (String.◌∷◌ d t) = false
has_prefix (String.◌∷◌ c s) (String.◌∷◌ d t) = eqb (code c) (code d) && has_prefix s t
