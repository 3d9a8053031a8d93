-- ===== src/Sdk/Itoa.antt =====
-- `itoa` of sdk/string/itoa.c. An `int64_t` is its bit pattern, so that what overflows wraps. The
-- loops have fuel.
pub mod Decimal
pub mod Hex
pub mod HexDigits
pub mod HexText
pub mod Print
pub mod Reverse
use open_modality.Base.{
  ℕ, zero, suc, ◌+◌, ◌-◌, ◌*◌, ◌/◌, ◌%◌, ◌^◌, bit_and, Bool, true, false, ◌&&◌, Option, none, some,
  List, [], ◌∷◌,
}
use open_modality.Base.Tests.{◌==◌, ltb, leb, if◌then◌else◌}
use open_modality.Base.Lists.{get_elem?}
use open_modality.Base.Run.{Run, done, out_of_fuel, ◌>>=◌, from_option}
use open_modality.Base.Words.{u8, u64, sub64}
use open_modality.Sdk.Memory.{load, store, memcpy}

-- The sign of an `int64_t`, `value > 0`, and `value * -1`.
abbrev pub is_negative : ℕ → Bool
is_negative value = leb (2 ^ 63) value

abbrev pub is_positive : ℕ → Bool
is_positive value = ltb 0 value && ltb value (2 ^ 63)

abbrev pub negate : ℕ → ℕ
negate value = u64 (2 ^ 64 - value)

-- `while (value > 0)`: the index behind the digits, and the buffer.
unfoldable pub decimal_loop : ℕ → ℕ → ℕ → List ℕ → Run (ℕ × List ℕ)
decimal_loop zero value i buf = out_of_fuel
decimal_loop (suc fuel) value i buf = elim (is_positive value) [
  | false ↦ done (i, buf)
  | true ↦ do buf' ← store buf i (b'0' + value % 10); decimal_loop fuel (value / 10) (i + 1) buf'
]

-- The loop that puts the characters from `j` to `i` the other way round.
unfoldable pub reverse_loop : ℕ → ℕ → ℕ → List ℕ → Run (List ℕ)
reverse_loop zero j i buf = out_of_fuel
reverse_loop (suc fuel) j i buf = elim (ltb j i) [
  | false ↦ done buf
  | true ↦ do
    tmp ← load buf j
    other ← load buf i
    buf' ← store buf j other
    buf'' ← store buf' i tmp
    reverse_loop fuel (j + 1) (sub64 i 1) buf''
]

-- Behind the digits: the sign, the terminator, and the reversal.
unfoldable pub finish_decimal : ℕ → Bool → ℕ → List ℕ → Run (List ℕ)
finish_decimal fuel negative i buf = do
  buf1 ← if negative then store buf i b'-' else done buf
  let end = if negative then i + 1 else i
  buf2 ← store buf1 end 0
  reverse_loop fuel 0 (sub64 end 1) buf2

unfoldable pub itoa_base10_convert : ℕ → ℕ → List ℕ → Run (List ℕ)
itoa_base10_convert fuel value buf = elim (value == 0) [
  | true ↦ do buf' ← store buf 0 b'0'; store buf' 1 0
  | false ↦ do
    (i, buf') ← decimal_loop fuel (if is_negative value then negate value else value) 0 buf
    finish_decimal fuel (is_negative value) i buf'
]

-- "0123456789ABCDEF"
abbrev pub ascii_nums : List ℕ
ascii_nums =
    b'0' ∷ b'1' ∷ b'2' ∷ b'3' ∷ b'4' ∷ b'5' ∷ b'6' ∷ b'7' ∷ b'8' ∷ b'9' ∷ b'A' ∷ b'B' ∷ b'C' ∷ b'D'
    ∷ b'E' ∷ b'F' ∷ 0 ∷ []

-- `while (n > 0)`: the indices here are `uint8_t`.
unfoldable pub hex_loop : ℕ → ℕ → ℕ → List ℕ → Run (ℕ × List ℕ)
hex_loop zero n i buffer = out_of_fuel
hex_loop (suc fuel) n i buffer = elim (ltb 0 n) [
  | false ↦ done (i, buffer)
  | true ↦ do
    nibble ← from_option (get_elem? ascii_nums (bit_and (u8 n) 0x0F))
    buffer' ← store buffer i nibble
    hex_loop fuel (n / 2 ^ 4) (u8 (i + 1)) buffer'
]

-- The padding of one digit, the prefix, the terminator and the reversal.
unfoldable pub finish_hex : ℕ → Bool → ℕ → List ℕ → Run (List ℕ)
finish_hex fuel pad i buffer = do
  buffer1 ← if pad then store buffer i b'0' else done buffer
  let i1 = if pad then u8 (i + 1) else i
  buffer2 ← store buffer1 i1 b'x'
  buffer3 ← store buffer2 (u8 (i1 + 1)) b'0'
  let end = u8 (u8 (i1 + 1) + 1)
  buffer4 ← store buffer3 end 0
  reverse_loop fuel 0 (u8 (end + 255)) buffer4

unfoldable pub itoa_convert_base16 : ℕ → ℕ → List ℕ → Run (List ℕ)
itoa_convert_base16 fuel n buffer = elim (n == 0) [
  | true ↦ do
    copied ← memcpy (some buffer) (some (b'0' ∷ b'x' ∷ b'0' ∷ b'0' ∷ 0 ∷ 0 ∷ [])) 5
    done (elim copied [ none ↦ buffer | some b ↦ b ])
  | false ↦ do (i, buffer') ← hex_loop fuel n 0 buffer; finish_hex fuel (ltb n 0x10) i buffer'
]

-- The buffer afterwards; for another base the result is null, and the buffer untouched.
unfoldable pub itoa : ℕ → ℕ → List ℕ → ℕ → Run (Option (List ℕ))
itoa fuel value buf base =
    let decimal = itoa_base10_convert fuel value buf >>= λ b. done (some b) in
    let hexadecimal = itoa_convert_base16 fuel value buf >>= λ b. done (some b) in
    if base == 10 then decimal else if base == 16 then hexadecimal else done none
