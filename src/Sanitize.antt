-- ===== src/Sanitize.antt =====
-- internal/platform/errsanitize/errsanitize.go: the bound on a stored text, and the marker for NUL.
-- Texts are valid UTF-8 here, so `strings.ToValidUTF8` changes nothing. The redaction patterns
-- (regular expressions) are not modelled.
mod Tests
use Prim.Native.Char.{Char, code, len_utf8}
use Prim.Native.String.len.{cons}
use Prim.Native.String.{◌++◌, len}
use payments_boilerplate.Base.{
  ℕ, ◌+◌, ◌-◌, ◌≤◌, ◌≡◌, refl, String, inl, inr, Bool-cases, leb→le, leb, eqb, if◌then◌else◌, arith,
}

abbrev pub redacted : String
redacted = "[REDACTED]"

abbrev pub max_length : ℕ
max_length = 500

-- `validText`: every NUL becomes the marker.
unfoldable pub valid_text : String → String
valid_text String.[] = String.[]
valid_text (String.◌∷◌ c s) =
    let rest = valid_text s in if eqb (code c) 0 then redacted ++ rest else String.◌∷◌ c rest

-- The longest prefix of whole characters with at most so many bytes: `Truncate` steps back from the
-- cut to the start of the character that the cut would split.
unfoldable pub cut_at : ℕ → String → String
cut_at n String.[] = String.[]
cut_at n (String.◌∷◌ c s) =
    let rest = cut_at (n - len_utf8 c) s in
    if leb (len_utf8 c) n then String.◌∷◌ c rest else String.[]

-- `Truncate`.
unfoldable pub truncate : String → ℕ → String
unfolding valid_text cut_at
truncate s max_bytes =
    if eqb max_bytes 0
    then ""
    else (if leb (len (valid_text s)) max_bytes
        then valid_text s
        else cut_at max_bytes (valid_text s))

len-cons : (c : Char) (s : String) → len (String.◌∷◌ c s) ≡ len_utf8 c + len s
len-cons c s = cons c s

len-cut_at-le : (s : String) (n : ℕ) → len (cut_at n s) ≤ n
unfolding cut_at
len-cut_at-le String.[] n = omega arith
len-cut_at-le (String.◌∷◌ c s) n = elim (Bool-cases (leb (len_utf8 c) n)) [
  | inl fits ↦
      rw (fits, len-cons)
        (omega (arith, leb→le (len_utf8 c) n fits, len-cut_at-le s (n - len_utf8 c)))
  | inr cut ↦ rw cut (omega arith)
]

-- Whatever the text, what is stored of it has at most the given number of bytes.
pub len-truncate-le : (s : String) (n : ℕ) → len (truncate s n) ≤ n
unfolding truncate
len-truncate-le s n = elim (Bool-cases (eqb n 0)) [
  | inl nothing ↦ rw nothing (omega arith)
  | inr something ↦ elim (Bool-cases (leb (len (valid_text s)) n)) [
    | inl fits ↦ rw (something, fits) (leb→le _ n fits)
    | inr long ↦ rw (something, long) (len-cut_at-le (valid_text s) n)
  ]
]
