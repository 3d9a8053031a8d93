-- ===== src/Sdk/Memory/Overlap.antt =====
-- `memcpy` where both ranges lie in one memory.
use open_modality.Base.{ℕ, zero, suc, ◌+◌, ◌≤◌, ◌<◌, ◌≡◌, ◌⊎◌, refl, arith}
use open_modality.Sdk.Memory.{Memory, poke, copy_bytes}

-- What the destination holds after copying the bytes from `i` up to `n`, and what is untouched.
record IsCopied (i n dest src : ℕ) (m out : Memory) : Type 0 where
  copied : (j : ℕ) → i ≤ j → j < n → out (dest + j) ≡ m (src + j)
  outside : (q : ℕ) → (q < dest + i) ⊎ (dest + n ≤ q) → out q ≡ m q

copy_bytes-IsCopied :
    (rounds i n dest src : ℕ) (m : Memory)
    → i + rounds ≡ n
    → (dest ≤ src) ⊎ (src + n ≤ dest)
    → IsCopied i n dest src m (copy_bytes rounds i dest src m)
unfolding copy_bytes
copy_bytes-IsCopied zero i n dest src m e apart = record {
  copied = λ j p q. absurd (omega arith);
  outside = λ q h. refl;
}
copy_bytes-IsCopied (suc rounds) i n dest src m e apart =
    let m' = poke m (dest + i) (m (src + i)) in
    let rest = copy_bytes-IsCopied rounds (i + 1) n dest src m' (omega arith) apart in
    record {
      copied = λ j p q. ground (arith, rest.copied j, rest.outside (dest + j));
      outside = λ q h. ground (arith, rest.outside q);
    }

-- Where the destination does not start inside the source, `memcpy` leaves in the destination what
-- the source held before, also if the ranges overlap, and changes nothing else.
pub copy_bytes_forward :
    (n dest src : ℕ) (m : Memory)
    → (dest ≤ src) ⊎ (src + n ≤ dest)
    → ((j : ℕ) → j < n → copy_bytes n 0 dest src m (dest + j) ≡ m (src + j))
      × ((q : ℕ) → (q < dest) ⊎ (dest + n ≤ q) → copy_bytes n 0 dest src m q ≡ m q)
copy_bytes_forward n dest src m apart =
    let all = copy_bytes-IsCopied n 0 n dest src m (omega arith) apart in
    (λ j h. all.copied j (omega arith) h, λ q h. all.outside q (ground arith))
