-- ===== src/Sdk/Itoa/Hex.antt =====
-- `itoa` in base 16 prints the number, with the prefix and at least two digits.
use mathlib.Core.List.{reverse, reverse-append}
use native.Mathlib.Decide.{ℕ_discrete}
use native.Mathlib.Nat.{pow-suc}
use open_modality.Base.{
  ℕ, zero, suc, ◌+◌, ◌*◌, ◌/◌, ◌%◌, ◌^◌, ◌<◌, ◌≤◌, ◌≡◌, ◌≢◌, ◌∙◌, refl, sym, ap, true, false, some,
  List, [], ◌∷◌, ◌++◌, append_assoc, bit_and, arith,
}
use open_modality.Base.Bits.{bit_and_low}
use open_modality.Base.Tests.{◌==◌}
use open_modality.Base.Lists.{length, drop, get_elem?, get_or, get_elem?-eq-get_or, length-append}
use open_modality.Base.Run.{done}
use open_modality.Base.Words.{u8}
use open_modality.Sdk.Memory.{store}
use open_modality.Sdk.Itoa.{ascii_nums, hex_loop, finish_hex, reverse_loop}
use open_modality.Sdk.Itoa.Reverse.{store-at, reverse_loop_lem}

abbrev pub nibble : ℕ → ℕ
nibble d = get_or ascii_nums d 0

-- The digits of a number in base 16, the lowest first.
abbrev pub low_nibbles : ℕ → ℕ → List ℕ
low_nibbles zero n = []
low_nibbles (suc k) n = elim (n == 0) [
  | true ↦ []
  | false ↦ nibble (n % 16) ∷ low_nibbles k (n / 16)
]

pub low_nibbles-step :
    (k n : ℕ) → n ≢ 0 → low_nibbles (suc k) n ≡ nibble (n % 16) ∷ low_nibbles k (n / 16)
low_nibbles-step k n nz = ground arith

pub low_nibbles-end : (k n : ℕ) → n ≡ 0 → low_nibbles k n ≡ []
low_nibbles-end zero n z = refl
low_nibbles-end (suc k) n z = ground arith

pub length-low_nibbles : (k n : ℕ) → length (low_nibbles k n) ≤ k
length-low_nibbles zero n = omega arith
length-low_nibbles (suc k) n = ground (arith, length-low_nibbles k (n / 16))

-- The character of a digit.
hex_loop-nibble : (n : ℕ) → get_elem? ascii_nums (bit_and (u8 n) 0x0F) ≡ some (nibble (n % 16))
hex_loop-nibble n =
    let masked : bit_and (u8 n) 0x0F ≡ n % 16 = bit_and_low 4 (u8 n) ∙ omega arith in
    ap (get_elem? ascii_nums) masked ∙ get_elem?-eq-get_or ascii_nums (n % 16) 0 (omega arith)

hex_loop-round :
    (fuel n i : ℕ) (buf buf' : List ℕ)
    → n ≢ 0
    → i < 255
    → store buf i (nibble (n % 16)) ≡ done buf'
    → hex_loop (suc fuel) n i buf ≡ hex_loop fuel (n / 16) (i + 1) buf'
unfolding hex_loop
hex_loop-round fuel n i buf buf' nz small stored =
    let digit = hex_loop-nibble n in let wrap : u8 (i + 1) ≡ i + 1 = omega arith in ground arith

hex_loop-end : (fuel n i : ℕ) (buf : List ℕ) → n ≡ 0 → hex_loop (suc fuel) n i buf ≡ done (i, buf)
unfolding hex_loop
hex_loop-end fuel n i buf z = ground arith

pub hex_loop_lem :
    (fuel n : ℕ) (pre rest : List ℕ) (i : ℕ)
    → i ≡ length pre
    → n < 16 ^ fuel
    → i + fuel < 256
    → fuel ≤ length rest
    → hex_loop (suc fuel) n i (pre ++ rest)
      ≡ done (
        i + length (low_nibbles fuel n),
        pre ++ (low_nibbles fuel n ++ drop (length (low_nibbles fuel n)) rest),
      )
hex_loop_lem zero n pre rest i e h pos room =
    hex_loop-end zero n i (pre ++ rest) (omega arith)
    ∙ ap (λ k. done (k, pre ++ rest)) (omega arith)
hex_loop_lem (suc fuel) n pre [] i e h pos room = absurd (omega arith)
hex_loop_lem (suc fuel) n pre (x ∷ rest) i e h pos room = elim (ℕ_discrete n 0) [
  | yes z ↦
      hex_loop-end (suc fuel) n i (pre ++ x ∷ rest) z
      ∙ ap (λ k. done (k, pre ++ x ∷ rest)) (omega arith)
      ∙ ap (λ l. done (i + length l, pre ++ (l ++ drop (length l) (x ∷ rest))))
          (sym (low_nibbles-end (suc fuel) n z))
  | no nz ↦
      let d = nibble (n % 16) in
      let low = low_nibbles fuel (n / 16) in
      hex_loop-round (suc fuel) n i (pre ++ x ∷ rest) (pre ++ d ∷ rest) nz (omega arith)
        (store-at pre x rest i e d)
      ∙ ap (hex_loop (suc fuel) (n / 16) (i + 1)) (sym (append_assoc pre (d ∷ []) rest))
      ∙ hex_loop_lem fuel (n / 16) (pre ++ d ∷ []) rest (i + 1)
          (omega (arith, length-append pre (d ∷ []))) (omega (arith, pow-suc 16 fuel)) (omega arith)
          (omega arith)
      ∙ ap (λ k. done (k, (pre ++ d ∷ []) ++ (low ++ drop (length low) rest))) (omega arith)
      ∙ ap (λ l. done (i + suc (length low), l))
          (append_assoc pre (d ∷ []) (low ++ drop (length low) rest))
      ∙ ap (λ l. done (i + length l, pre ++ (l ++ drop (length l) (x ∷ rest))))
          (sym (low_nibbles-step fuel n nz))
]

-- What is written behind the digits, and the reversal.
module _ (ds mid : List ℕ) (x : ℕ) (post : List ℕ) (i : ℕ) (here : i ≡ length ds + length mid) where
  store-behind : (v : ℕ) → store (ds ++ (mid ++ x ∷ post)) i v ≡ done (ds ++ (mid ++ v ∷ post))
  store-behind v =
      ap (λ l. store l i v) (sym (append_assoc ds mid (x ∷ post)))
      ∙ store-at (ds ++ mid) x post i (omega (arith, length-append ds mid)) v
      ∙ ap done (append_assoc ds mid (v ∷ post))

-- The reversal of the digits with the prefix behind them.
hex_reversed :
    (fuel : ℕ) (ds post : List ℕ) (end : ℕ)
    → end ≡ length ds + 2
    → end < 256
    → length ds + 2 ≤ 2 * fuel
    → reverse_loop (suc fuel) 0 (u8 (end + 255)) (ds ++ b'x' ∷ b'0' ∷ 0 ∷ post)
      ≡ done (b'0' ∷ b'x' ∷ (reverse ds ++ 0 ∷ post))
hex_reversed fuel ds post end e small enough =
    let part = ds ++ b'x' ∷ b'0' ∷ [] in
    let count = length-append ds (b'x' ∷ b'0' ∷ []) in
    ap (reverse_loop (suc fuel) 0 (u8 (end + 255)))
      (sym (append_assoc ds (b'x' ∷ b'0' ∷ []) (0 ∷ post)))
    ∙ reverse_loop_lem fuel [] part (0 ∷ post) 0 (u8 (end + 255)) (omega arith) refl (omega arith)
        (omega arith)
    ∙ ap (λ l. done (l ++ 0 ∷ post)) (reverse-append ds (b'x' ∷ b'0' ∷ []))

pub finish_hex-plain :
    (fuel i : ℕ) (ds : List ℕ) (x y z : ℕ) (post : List ℕ)
    → i ≡ length ds
    → i < 250
    → length ds + 2 ≤ 2 * fuel
    → finish_hex (suc fuel) false i (ds ++ x ∷ y ∷ z ∷ post)
      ≡ done (b'0' ∷ b'x' ∷ (reverse ds ++ 0 ∷ post))
unfolding finish_hex
finish_hex-plain fuel i ds x y z post e small enough =
    let i1 : u8 (i + 1) ≡ i + 1 = omega arith in
    let i2 : u8 (i + 1 + 1) ≡ i + 2 = omega arith in
    let s1 = store-at ds x (y ∷ z ∷ post) i e b'x' in
    let s2 = store-behind ds (b'x' ∷ []) y (z ∷ post) (i + 1) (omega arith) b'0' in
    let s3 = store-behind ds (b'x' ∷ b'0' ∷ []) z post (i + 2) (omega arith) 0 in
    rw (s1, i1, s2, i2, s3) (hex_reversed fuel ds post (i + 2) (omega arith) (omega arith) enough)

pub finish_hex-pad :
    (fuel i : ℕ) (low : List ℕ) (w x y z : ℕ) (post : List ℕ)
    → i ≡ length low
    → i < 240
    → length low + 3 ≤ 2 * fuel
    → finish_hex (suc fuel) true i (low ++ w ∷ x ∷ y ∷ z ∷ post)
      ≡ done (b'0' ∷ b'x' ∷ (reverse (low ++ b'0' ∷ []) ++ 0 ∷ post))
unfolding finish_hex
finish_hex-pad fuel i low w x y z post e small enough =
    let i1 : u8 (i + 1) ≡ i + 1 = omega arith in
    let padded = store-at low w (x ∷ y ∷ z ∷ post) i e b'0' in
    let count = length-append low (b'0' ∷ []) in
    let plain =
      finish_hex-plain fuel (i + 1) (low ++ b'0' ∷ []) x y z post (omega arith) (omega arith)
        (omega arith) in
    rw (padded, i1)
      (ap (finish_hex (suc fuel) false (i + 1))
          (sym (append_assoc low (b'0' ∷ []) (x ∷ y ∷ z ∷ post)))
        ∙ plain)
