-- ===== src/Mm/Bitmap/Full.antt =====
-- The bitmap that `memset(bitmap, 0xFF, size)` leaves: every bit is set.
use open_modality.Base.{ℕ, zero, suc, ◌*◌, ◌/◌, ◌%◌, ◌<◌, ◌≡◌, refl, true, arith}
use open_modality.Base.Lists.{replicate, get_or}
use open_modality.Mm.Bitmap.{byte_test}
use open_modality.Mm.Bitmap.Bytes.{bit_at}

full_byte : (k : ℕ) → k < 8 → byte_test 0xFF k ≡ true
unfolding byte_test
full_byte zero h = refl
full_byte (suc zero) h = refl
full_byte (suc (suc zero)) h = refl
full_byte (suc (suc (suc zero))) h = refl
full_byte (suc (suc (suc (suc zero)))) h = refl
full_byte (suc (suc (suc (suc (suc zero))))) h = refl
full_byte (suc (suc (suc (suc (suc (suc zero)))))) h = refl
full_byte (suc (suc (suc (suc (suc (suc (suc zero))))))) h = refl
full_byte (suc (suc (suc (suc (suc (suc (suc (suc k)))))))) h = absurd (omega arith)

get_or-full : (n i : ℕ) → i < n → get_or {A = ℕ} (replicate n 0xFF) i 0 ≡ 0xFF
get_or-full zero i h = absurd (omega arith)
get_or-full (suc n) zero h = refl
get_or-full (suc n) (suc i) h = get_or-full n i (omega arith)

pub get_or-full_bound : (n i : ℕ) → get_or {A = ℕ} (replicate n 0xFF) i 0 < 256
get_or-full_bound zero i = omega arith
get_or-full_bound (suc n) zero = omega arith
get_or-full_bound (suc n) (suc i) = get_or-full_bound n i

pub bit_at-full : (n j : ℕ) → j < 8 * n → bit_at (replicate n 0xFF) j ≡ true
bit_at-full n j h = rw (get_or-full n (j / 8) (omega arith)) (full_byte (j % 8) (omega arith))
