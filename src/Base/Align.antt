-- ===== src/Base/Align.antt =====
-- What ALIGN_DOWN and ALIGN_UP of sdk/inc/sys/param.h compute at the page size and at eight bytes.
use Prim.Native.Nat.{ℕ, ◌+◌, ◌-◌, ◌*◌, ◌/◌, ◌%◌, ◌^◌, ◌<◌, bit_and}
use mathlib.Core.Path.{◌≡◌}
use native.Mathlib.Omega.{arith}
use open_modality.Base.Bits.{bit_and_high, bit_and_low}
use open_modality.Base.Words.{u64, not64, align_down, align_up}

mask_page : (v : ℕ) → v < 2 ^ 64 → bit_and v (not64 4095) ≡ v / 4096 * 4096
mask_page v h =
    ground (arith, bit_and_high 12 (v / 4096) (v % 4096) (2 ^ 52 - 1), bit_and_low 52 (v / 4096))

mask_eight : (v : ℕ) → v < 2 ^ 64 → bit_and v (not64 7) ≡ v / 8 * 8
mask_eight v h = ground (arith, bit_and_high 3 (v / 8) (v % 8) (2 ^ 61 - 1), bit_and_low 61 (v / 8))

pub align_down_page : (v : ℕ) → v < 2 ^ 64 → align_down v 4096 ≡ v / 4096 * 4096
unfolding align_down
align_down_page v h = mask_page v h

pub align_up_page : (v : ℕ) → align_up v 4096 ≡ u64 (v + 4095) / 4096 * 4096
unfolding align_up
align_up_page v = ground (arith, mask_page (u64 (v + 4096 - 1)))

pub align_up_eight : (v : ℕ) → align_up v 8 ≡ u64 (v + 7) / 8 * 8
unfolding align_up
align_up_eight v = ground (arith, mask_eight (u64 (v + 8 - 1)))
