-- ===== src/Sdk/Vsnprintf/Format.antt =====
-- Formats as the text and the conversions they are made of, each conversion with its argument.
use open_modality.Base.{ℕ, suc, ◌-◌, ◌%◌, ◌^◌, ◌<◌, ◌≤◌, ◌≢◌, List, [], ◌∷◌, ◌++◌}
use open_modality.Base.Lists.{length, replicate, All}
use open_modality.Base.Words.{u8}
use open_modality.Sdk.Itoa.Decimal.{read_digits}
use open_modality.Sdk.Itoa.Print.{decimal}
use open_modality.Sdk.Itoa.HexDigits.{hex_digits}
use open_modality.Sdk.Vsnprintf.{Arg, number, pointer}

-- "%%", "%c", "%d", "%0Nd" with the digits of N, "%x", "%p" and "%s"; a string is its characters
-- and what lies behind the terminator.
pub data Conversion : Type 0 where
  percent : Conversion
  char : ℕ → Conversion
  signed : ℕ → Conversion
  padded : List ℕ → ℕ → Conversion
  hex : ℕ → Conversion
  address : ℕ → Conversion
  string : List ℕ → List ℕ → Conversion

-- What follows the '%'.
abbrev pub spec : Conversion → List ℕ
spec percent = b'%' ∷ []
spec (char c) = b'c' ∷ []
spec (signed v) = b'd' ∷ []
spec (padded digits v) = b'0' ∷ (digits ++ b'd' ∷ [])
spec (hex v) = b'x' ∷ []
spec (address v) = b'p' ∷ []
spec (string s rest) = b's' ∷ []

abbrev pub taken : Conversion → List Arg
taken percent = []
taken (char c) = number c ∷ []
taken (signed v) = number v ∷ []
taken (padded digits v) = number v ∷ []
taken (hex v) = number v ∷ []
taken (address v) = number v ∷ []
taken (string s rest) = pointer (s ++ 0 ∷ rest) ∷ []

-- The width of a padded number is a `uint8_t`.
abbrev pub width : List ℕ → ℕ
width digits = read_digits 0 digits % 2 ^ 8

abbrev pub text : Conversion → List ℕ
text percent = b'%' ∷ []
text (char c) = u8 c ∷ []
text (signed v) = decimal v
text (padded digits v) = replicate (width digits - length (decimal v)) b'0' ++ decimal v
text (hex v) = hex_digits v
text (address v) = b'0' ∷ b'x' ∷ (replicate (16 - length (hex_digits v)) b'0' ++ hex_digits v)
text (string s rest) = s

-- Numbers of 64 bits, signed ones other than the lowest; strings without a zero inside.
abbrev pub IsConversion : Conversion → Type 0
IsConversion percent = Unit
IsConversion (char c) = Unit
IsConversion (signed v) = (v < 2 ^ 64) × (v ≢ 2 ^ 63)
IsConversion (padded digits v) =
    (v < 2 ^ 64) × (v ≢ 2 ^ 63) × All (λ c. (b'0' ≤ c) × (c ≤ b'9')) digits
IsConversion (hex v) = v < 2 ^ 64
IsConversion (address v) = v < 2 ^ 64
IsConversion (string s rest) = All (λ c. c ≢ 0) s

-- A format: plain text up to its end, or up to a conversion.
pub data Format : Type 0 where
  last : List ℕ → Format
  next : List ℕ → Conversion → Format → Format

-- The characters of the format, with what lies behind its terminator.
abbrev pub encode : Format → List ℕ → List ℕ
encode (last lit) rest = lit ++ 0 ∷ rest
encode (next lit c f) rest = lit ++ b'%' ∷ (spec c ++ encode f rest)

abbrev pub arguments : Format → List Arg
arguments (last lit) = []
arguments (next lit c f) = taken c ++ arguments f

-- The text that the format stands for.
abbrev pub render : Format → List ℕ
render (last lit) = lit
render (next lit c f) = lit ++ (text c ++ render f)

abbrev pub IsFormat : Format → Type 0
IsFormat (last lit) = All (λ c. (c ≢ 0) × (c ≢ b'%')) lit
IsFormat (next lit c f) = All (λ c. (c ≢ 0) × (c ≢ b'%')) lit × IsConversion c × IsFormat f

abbrev pub conversions : Format → ℕ
conversions (last lit) = 0
conversions (next lit c f) = suc (conversions f)
