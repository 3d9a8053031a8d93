-- ===== src/Base/Words.antt =====
-- Machine words as native numbers: `uint8_t` to `uint64_t` wrap by a remainder, and the alignment
-- and bit macros of sdk/inc/sys/param.h.
use Prim.Native.Nat.{ℕ, ◌+◌, ◌-◌, ◌%◌, ◌^◌, bit_and}

abbrev pub u8 : ℕ → ℕ
u8 n = n % 2 ^ 8

abbrev pub u16 : ℕ → ℕ
u16 n = n % 2 ^ 16

abbrev pub u32 : ℕ → ℕ
u32 n = n % 2 ^ 32

abbrev pub u64 : ℕ → ℕ
u64 n = n % 2 ^ 64

-- `a - b` on `size_t`, for `b` below 2 ^ 64.
abbrev pub sub64 : ℕ → ℕ → ℕ
sub64 a b = (a + 2 ^ 64 - b) % 2 ^ 64

-- `~x` on 64 bits.
abbrev pub not64 : ℕ → ℕ
not64 x = 2 ^ 64 - 1 - x

-- BIT(n), for n below 64.
unfoldable pub bit : ℕ → ℕ
bit n = 2 ^ n

unfoldable pub align_down : ℕ → ℕ → ℕ
align_down value align = bit_and value (not64 (align - 1))

unfoldable pub align_up : ℕ → ℕ → ℕ
align_up value align = bit_and (u64 (value + align - 1)) (not64 (align - 1))
