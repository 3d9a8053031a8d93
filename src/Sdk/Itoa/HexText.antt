-- ===== src/Sdk/Itoa/HexText.antt =====
-- The text of a number in base 16 that `itoa` leaves in the buffer.
use mathlib.Core.List.{reverse}
use open_modality.Base.{
  ℕ, ◌^◌, ◌<◌, ◌≤◌, ◌≡◌, ◌≢◌, ◌∙◌, refl, ap, Bool, true, false, some, List, [], ◌∷◌, ◌++◌, arith,
}
use open_modality.Base.Tests.{ltb}
use open_modality.Base.Lists.{length, drop, length-append, length-drop, length-reverse}
use open_modality.Base.Run.{done}
use open_modality.Sdk.Memory.{memcpy}
use open_modality.Sdk.Memory.Laws.{memcpy_lem}
use open_modality.Sdk.Itoa.{hex_loop, finish_hex, itoa_convert_base16, itoa}
use open_modality.Sdk.Itoa.Print.{Leaves}
use open_modality.Sdk.Itoa.Hex.{
  low_nibbles, length-low_nibbles, hex_loop_lem, finish_hex-plain, finish_hex-pad,
}
use open_modality.Sdk.Itoa.HexDigits.{hex_text, hex_digits-cases, length-low_nibbles-one}

itoa_convert_base16-nonzero :
    (fuel n i : ℕ) (buf digits b : List ℕ) (pad : Bool)
    → n ≢ 0
    → ltb n 0x10 ≡ pad
    → hex_loop fuel n 0 buf ≡ done (i, digits)
    → finish_hex fuel pad i digits ≡ done b
    → itoa_convert_base16 fuel n buf ≡ done b
unfolding itoa_convert_base16
itoa_convert_base16-nonzero fuel n i buf digits b pad nz padded looped finished = ground arith

itoa_convert_base16-zero :
    (fuel a b c d e : ℕ) (post : List ℕ)
    → itoa_convert_base16 fuel 0 (a ∷ b ∷ c ∷ d ∷ e ∷ post)
      ≡ done (b'0' ∷ b'x' ∷ b'0' ∷ b'0' ∷ 0 ∷ post)
unfolding itoa_convert_base16
itoa_convert_base16-zero fuel a b c d e post =
    let src : List ℕ = b'0' ∷ b'x' ∷ b'0' ∷ b'0' ∷ 0 ∷ 0 ∷ [] in
    let dest : List ℕ = a ∷ b ∷ c ∷ d ∷ e ∷ post in
    let copied : memcpy (some dest) (some src) 5
        ≡ done (some (b'0' ∷ b'x' ∷ b'0' ∷ b'0' ∷ 0 ∷ post)) =
      memcpy_lem (some dest) (some src) 5 ∙ ground arith in
    rw copied refl

itoa-hex :
    (fuel value : ℕ) (buf b : List ℕ)
    → itoa_convert_base16 fuel value buf ≡ done b
    → itoa fuel value buf 16 ≡ done (some b)
unfolding itoa
itoa-hex fuel value buf b e = rw e refl

five_front :
    (l : List ℕ)
    → 5 ≤ length l
    → (a : ℕ) × (b : ℕ) × (c : ℕ) × (d : ℕ) × (e : ℕ) × (post : List ℕ) × l
        ≡ a ∷ b ∷ c ∷ d ∷ e ∷ post
five_front [] h = absurd (omega arith)
five_front (a ∷ []) h = absurd (omega arith)
five_front (a ∷ b ∷ []) h = absurd (omega arith)
five_front (a ∷ b ∷ c ∷ []) h = absurd (omega arith)
five_front (a ∷ b ∷ c ∷ d ∷ []) h = absurd (omega arith)
five_front (a ∷ b ∷ c ∷ d ∷ e ∷ post) h = (a, b, c, d, e, post, refl)

module _ (n : ℕ) (buf : List ℕ) (small : n < 2 ^ 64) (room : 21 ≤ length buf) where
  abbrev low : List ℕ
  low = low_nibbles 16 n

  looped :
      (rest : List ℕ)
      → drop (length low) buf ≡ rest
      → hex_loop 17 n 0 buf ≡ done (length low, low ++ rest)
  looped rest e =
      hex_loop_lem 16 n [] buf 0 refl (omega arith) (omega arith) (omega arith)
      ∙ ap (λ k. done (k, low ++ drop (length low) buf)) (omega arith)
      ∙ ap (λ l. done (length low, low ++ l)) e

  behind :
      (a : ℕ) × (b : ℕ) × (c : ℕ) × (d : ℕ) × (e : ℕ) × (post : List ℕ) × drop (length low) buf
        ≡ a ∷ b ∷ c ∷ d ∷ e ∷ post
  behind =
      five_front (drop (length low) buf)
        (omega (arith, length-drop (length low) buf, length-low_nibbles 16 n))

  one_digit :
      0 < n → n < 16 → Leaves (itoa 17 n buf 16) buf (b'0' ∷ b'x' ∷ reverse (low ++ b'0' ∷ []))
  one_digit p q =
      let (a, b, c, d, e, post, rest) = behind in
      let pad : ltb n 16 ≡ true = ground arith in
      let one = length-low_nibbles-one n q in
      let digits = low ++ b'0' ∷ [] in
      let finished =
        finish_hex-pad 16 (length low) low a b c d (e ∷ post) refl (omega arith) (omega arith) in
      record {
        post = e ∷ post;
        out = itoa-hex 17 n buf _ (
            itoa_convert_base16-nonzero 17 n (length low) buf _ _ true (λ z. omega arith) pad
              (looped _ rest) finished);
        whole = omega (
          arith,
          length-append (reverse digits) (0 ∷ e ∷ post),
          length-reverse digits,
          length-append low (b'0' ∷ []),
          ap length rest,
          length-drop (length low) buf,
        );
      }

  more_digits : 16 ≤ n → Leaves (itoa 17 n buf 16) buf (b'0' ∷ b'x' ∷ reverse low)
  more_digits p =
      let (a, b, c, d, e, post, rest) = behind in
      let pad : ltb n 16 ≡ false = ground arith in
      let count = length-low_nibbles 16 n in
      let finished =
        finish_hex-plain 16 (length low) low a b c (d ∷ e ∷ post) refl (omega arith)
          (omega arith) in
      record {
        post = d ∷ e ∷ post;
        out = itoa-hex 17 n buf _ (
            itoa_convert_base16-nonzero 17 n (length low) buf _ _ false (λ z. omega arith) pad
              (looped _ rest) finished);
        whole = omega (
          arith,
          length-append (reverse low) (0 ∷ d ∷ e ∷ post),
          length-reverse low,
          ap length rest,
          length-drop (length low) buf,
        );
      }

  pub itoa_hex-Leaves : Leaves (itoa 17 n buf 16) buf (hex_text n)
  itoa_hex-Leaves =
      hex_digits-cases (λ s. Leaves (itoa 17 n buf 16) buf (b'0' ∷ b'x' ∷ s)) n
        (λ z.
          let (a, b, c, d, e, post, front) = five_front buf (omega arith) in
          record {
            post = post;
            out = itoa-hex 17 n buf _ (rw (z, front) (itoa_convert_base16-zero 17 a b c d e post));
            whole = omega (arith, ap length front);
          })
        one_digit more_digits
