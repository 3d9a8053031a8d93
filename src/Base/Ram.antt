-- ===== src/Base/Ram.antt =====
-- Memory that is read and written by address. An address that is not mapped holds nothing, and an
-- access to it is a fault.
use Prim.Native.Nat.{ℕ, zero, suc, ◌+◌, ◌*◌, ◌/◌, ◌^◌, ◌≤◌, ◌<◌}
use mathlib.Core.Path.{◌≡◌, refl, ap, subst}
use mathlib.Core.Option.{Option, none, some}
use mathlib.Core.List.{List, [], ◌∷◌, ◌++◌}
use native.Mathlib.Nat.{pow-suc}
use native.Mathlib.Omega.{arith}
use open_modality.Base.Bytes.{to_bytes}
use open_modality.Base.Lists.{length, take}
use open_modality.Base.Run.{Run, done, fault, ◌>>=◌, from_option}
use open_modality.Base.Tests.{◌==◌, if◌then◌else◌}

abbrev pub Ram : Type 0
Ram = ℕ → Option ℕ

abbrev pub read_byte : Ram → ℕ → Run ℕ
read_byte ram a = from_option (ram a)

-- The little-endian number in the `k` bytes at an address.
abbrev pub read_int : ℕ → Ram → ℕ → Run ℕ
read_int zero ram a = done 0
read_int (suc k) ram a = do b ← read_byte ram a; w ← read_int k ram (a + 1); done (b + 256 * w)

abbrev pub write_byte : Ram → ℕ → ℕ → Run Ram
write_byte ram a v = elim (ram a) [
  | none ↦ fault
  | some old ↦ done (λ b. if b == a then some v else ram b)
]

-- Up to `n` bytes from an address on, as far as the memory is mapped.
abbrev pub bytes_at : Ram → ℕ → ℕ → List ℕ
bytes_at ram a zero = []
bytes_at ram a (suc n) = elim (ram a) [ none ↦ [] | some b ↦ b ∷ bytes_at ram (a + 1) n ]

-- The memory holds these bytes from an address on.
abbrev pub Holds : Ram → ℕ → List ℕ → Type 0
Holds ram a [] = Unit
Holds ram a (b ∷ bs) = (ram a ≡ some b) × Holds ram (a + 1) bs

module _ (ram : Ram) where
  pub bytes_at-Holds :
      (n a : ℕ) (bs : List ℕ) → n ≤ length bs → Holds ram a bs → bytes_at ram a n ≡ take n bs
  bytes_at-Holds zero a bs h held = refl
  bytes_at-Holds (suc n) a [] h held = absurd (omega arith)
  bytes_at-Holds (suc n) a (b ∷ bs) h (here, held) =
      let rest = bytes_at-Holds n (a + 1) bs (omega arith) held in ground arith

  pub read_int-Holds :
      (k w a : ℕ) → w < 256 ^ k → Holds ram a (to_bytes k w) → read_int k ram a ≡ done w
  read_int-Holds zero w a h held = ap done (omega arith)
  read_int-Holds (suc k) w a h (here, held) =
      rw (here, read_int-Holds k (w / 256) (a + 1) (omega (arith, pow-suc 256 k)) held)
        (ap done (omega arith))

  pub Holds-append-left : (a : ℕ) (xs ys : List ℕ) → Holds ram a (xs ++ ys) → Holds ram a xs
  Holds-append-left a [] ys held = tt
  Holds-append-left a (x ∷ xs) ys (here, held) = (here, Holds-append-left (a + 1) xs ys held)

  pub Holds-append-right :
      (a b : ℕ) (xs ys : List ℕ) → b ≡ a + length xs → Holds ram a (xs ++ ys) → Holds ram b ys
  Holds-append-right a b [] ys e held =
      let same : a ≡ b = omega arith in subst (λ c. Holds ram c ys) same held
  Holds-append-right a b (x ∷ xs) ys e (here, held) =
      Holds-append-right (a + 1) b xs ys (omega arith) held

-- Memories with the same bytes are read the same.
pub read_int-same :
    (k a : ℕ) (ram ram' : Ram)
    → ((b : ℕ) → a ≤ b → b < a + k → ram' b ≡ ram b)
    → read_int k ram' a ≡ read_int k ram a
read_int-same zero a ram ram' same = refl
read_int-same (suc k) a ram ram' same =
    let here = same a (omega arith) (omega arith) in
    let rest = read_int-same k (a + 1) ram ram' (λ b h g. same b (omega arith) (omega arith)) in
    rw (read_int, read_byte, here, rest) refl
