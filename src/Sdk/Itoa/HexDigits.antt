-- ===== src/Sdk/Itoa/HexDigits.antt =====
-- The digits of a number in base 16, and that they read back.
use mathlib.Core.List.{reverse, reverse-cons, reverse-append}
use mathlib.Core.Path.{subst}
use native.Mathlib.Decide.{ℕ_discrete, dec_lt}
use native.Mathlib.Nat.{pow-suc}
use open_modality.Base.{
  ℕ, zero, suc, ◌+◌, ◌-◌, ◌*◌, ◌/◌, ◌%◌, ◌^◌, ◌<◌, ◌≤◌, ◌≡◌, ◌≢◌, ◌∙◌, refl, sym, ap, true, false,
  List, [], ◌∷◌, ◌++◌, arith,
}
use open_modality.Base.Tests.{◌==◌, leb, ltb, if◌then◌else◌}
use open_modality.Base.Lists.{length, All, All-append, All-reverse, length-append, length-reverse}
use open_modality.Sdk.Itoa.Hex.{
  nibble, low_nibbles, low_nibbles-step, low_nibbles-end, length-low_nibbles,
}

-- The digits, the highest first, and two at least.
abbrev pub hex_digits : ℕ → List ℕ
hex_digits n =
    if n == 0
    then b'0' ∷ b'0' ∷ []
    else if ltb n 16
    then reverse (low_nibbles 16 n ++ b'0' ∷ [])
    else reverse (low_nibbles 16 n)

abbrev pub hex_text : ℕ → List ℕ
hex_text n = b'0' ∷ b'x' ∷ hex_digits n

-- A digit read back, and a number from its digits, the highest first.
abbrev pub read_nibble : ℕ → ℕ
read_nibble c = if leb c b'9' then c - b'0' else c - b'A' + 10

abbrev pub read_hex : ℕ → List ℕ → ℕ
read_hex n [] = n
read_hex n (c ∷ s) = read_hex (n * 16 + read_nibble c) s

read_nibble-nibble : (d : ℕ) → d < 16 → read_nibble (nibble d) ≡ d
read_nibble-nibble zero h = refl
read_nibble-nibble (suc zero) h = refl
read_nibble-nibble (suc (suc zero)) h = refl
read_nibble-nibble (suc (suc (suc zero))) h = refl
read_nibble-nibble (suc (suc (suc (suc zero)))) h = refl
read_nibble-nibble (suc (suc (suc (suc (suc zero))))) h = refl
read_nibble-nibble (suc (suc (suc (suc (suc (suc zero)))))) h = refl
read_nibble-nibble (suc (suc (suc (suc (suc (suc (suc zero))))))) h = refl
read_nibble-nibble (suc (suc (suc (suc (suc (suc (suc (suc zero)))))))) h = refl
read_nibble-nibble (suc (suc (suc (suc (suc (suc (suc (suc (suc zero))))))))) h = refl
read_nibble-nibble (suc (suc (suc (suc (suc (suc (suc (suc (suc (suc zero)))))))))) h = refl
read_nibble-nibble (suc (suc (suc (suc (suc (suc (suc (suc (suc (suc (suc zero))))))))))) h = refl
read_nibble-nibble (suc (suc (suc (suc (suc (suc (suc (suc (suc (suc (suc (suc zero)))))))))))) h =
    refl
read_nibble-nibble
      (suc (suc (suc (suc (suc (suc (suc (suc (suc (suc (suc (suc (suc zero))))))))))))) h =
    refl
read_nibble-nibble
      (suc (suc (suc (suc (suc (suc (suc (suc (suc (suc (suc (suc (suc (suc zero)))))))))))))) h =
    refl
read_nibble-nibble
      (suc (suc (suc (suc (suc (suc (suc (suc (suc (suc (suc (suc (suc (suc (suc zero)))))))))))))))
      h =
    refl
read_nibble-nibble
      (suc
        (suc (suc (suc (suc (suc (suc (suc (suc (suc (suc (suc (suc (suc (suc (suc d))))))))))))))))
      h =
    absurd (omega arith)

nibble_nonzero : (d : ℕ) → d < 16 → nibble d ≢ 0
nibble_nonzero zero h = λ e. omega arith
nibble_nonzero (suc zero) h = λ e. omega arith
nibble_nonzero (suc (suc zero)) h = λ e. omega arith
nibble_nonzero (suc (suc (suc zero))) h = λ e. omega arith
nibble_nonzero (suc (suc (suc (suc zero)))) h = λ e. omega arith
nibble_nonzero (suc (suc (suc (suc (suc zero))))) h = λ e. omega arith
nibble_nonzero (suc (suc (suc (suc (suc (suc zero)))))) h = λ e. omega arith
nibble_nonzero (suc (suc (suc (suc (suc (suc (suc zero))))))) h = λ e. omega arith
nibble_nonzero (suc (suc (suc (suc (suc (suc (suc (suc zero)))))))) h = λ e. omega arith
nibble_nonzero (suc (suc (suc (suc (suc (suc (suc (suc (suc zero))))))))) h = λ e. omega arith
nibble_nonzero (suc (suc (suc (suc (suc (suc (suc (suc (suc (suc zero)))))))))) h = λ e. omega arith
nibble_nonzero (suc (suc (suc (suc (suc (suc (suc (suc (suc (suc (suc zero))))))))))) h =
    λ e. omega arith
nibble_nonzero (suc (suc (suc (suc (suc (suc (suc (suc (suc (suc (suc (suc zero)))))))))))) h =
    λ e. omega arith
nibble_nonzero (suc (suc (suc (suc (suc (suc (suc (suc (suc (suc (suc (suc (suc zero)))))))))))))
      h =
    λ e. omega arith
nibble_nonzero
      (suc (suc (suc (suc (suc (suc (suc (suc (suc (suc (suc (suc (suc (suc zero)))))))))))))) h =
    λ e. omega arith
nibble_nonzero
      (suc (suc (suc (suc (suc (suc (suc (suc (suc (suc (suc (suc (suc (suc (suc zero)))))))))))))))
      h =
    λ e. omega arith
nibble_nonzero
      (suc
        (suc (suc (suc (suc (suc (suc (suc (suc (suc (suc (suc (suc (suc (suc (suc d))))))))))))))))
      h =
    absurd (omega arith)

read_hex-last :
    (n : ℕ) (s : List ℕ) (c : ℕ) → read_hex n (s ++ c ∷ []) ≡ read_hex n s * 16 + read_nibble c
read_hex-last n [] c = refl
read_hex-last n (d ∷ s) c = read_hex-last (n * 16 + read_nibble d) s c

read_hex-low_nibbles : (k n : ℕ) → n < 16 ^ k → read_hex 0 (reverse (low_nibbles k n)) ≡ n
read_hex-low_nibbles zero n h = ground arith
read_hex-low_nibbles (suc k) n h = elim (ℕ_discrete n 0) [
  | yes z ↦ rw z refl
  | no nz ↦
      let ih = read_hex-low_nibbles k (n / 16) (omega (arith, pow-suc 16 k)) in
      let low = low_nibbles k (n / 16) in
      let digit = read_nibble-nibble (n % 16) (omega arith) in
      rw
        (
          low_nibbles-step k n nz,
          reverse-cons (nibble (n % 16)) low,
          read_hex-last 0 (reverse low) (nibble (n % 16)),
          ih,
          digit,
        )
        (omega arith)
]

low_nibbles-All : (k n : ℕ) → All (λ c. c ≢ 0) (low_nibbles k n)
low_nibbles-All zero n = tt
low_nibbles-All (suc k) n = elim (ℕ_discrete n 0) [
  | yes z ↦ ground arith
  | no nz ↦
      subst (All (λ c. c ≢ 0)) (sym (low_nibbles-step k n nz))
        (nibble_nonzero (n % 16) (omega arith), low_nibbles-All k (n / 16))
]

length-low_nibbles-pos : (k n : ℕ) → 0 < n → 0 < length (low_nibbles (suc k) n)
length-low_nibbles-pos k n h = ground arith

-- The three forms of the digits.
pub hex_digits-cases :
    (P : List ℕ → Type 0) (n : ℕ)
    → (n ≡ 0 → P (b'0' ∷ b'0' ∷ []))
    → (0 < n → n < 16 → P (reverse (low_nibbles 16 n ++ b'0' ∷ [])))
    → (16 ≤ n → P (reverse (low_nibbles 16 n)))
    → P (hex_digits n)
hex_digits-cases P n absent one more = elim (dec_lt 0 n) [
  | no z ↦
      let e : hex_digits n ≡ b'0' ∷ b'0' ∷ [] =
        let test : (n == 0) ≡ true = ground arith in rw test refl in
      subst P (sym e) (absent (omega arith))
  | yes p ↦
      let test : (n == 0) ≡ false = ground arith in
      elim (dec_lt n 16) [
        | yes q ↦
            let small : ltb n 16 ≡ true = ground arith in
            let e : hex_digits n ≡ reverse (low_nibbles 16 n ++ b'0' ∷ []) =
              rw (test, small) refl in
            subst P (sym e) (one p q)
        | no q ↦
            let large : ltb n 16 ≡ false = ground arith in
            let e : hex_digits n ≡ reverse (low_nibbles 16 n) = rw (test, large) refl in
            subst P (sym e) (more (omega arith))
      ]
]

pub hex_digits-All : (n : ℕ) → All (λ c. c ≢ 0) (hex_digits n)
hex_digits-All n =
    let low = low_nibbles 16 n in
    let all = low_nibbles-All 16 n in
    hex_digits-cases (All (λ c. c ≢ 0)) n (λ e. (λ z. omega arith, (λ z. omega arith, tt)))
      (λ p q.
        All-reverse (λ c. c ≢ 0) (low ++ b'0' ∷ [])
          (All-append (λ c. c ≢ 0) low (b'0' ∷ []) all (λ z. omega arith, tt)))
      (λ p. All-reverse (λ c. c ≢ 0) low all)

-- A single digit leaves room for its padding.
pub length-low_nibbles-one : (n : ℕ) → n < 16 → length (low_nibbles 16 n) ≤ 1
length-low_nibbles-one n h = elim (ℕ_discrete n 0) [
  | yes z ↦ omega (arith, ap length (low_nibbles-end 16 n z))
  | no nz ↦ omega (
    arith,
    ap length (low_nibbles-step 15 n nz),
    ap length (low_nibbles-end 15 (n / 16) (omega arith)),
  )
]

pub length-hex_digits : (n : ℕ) → length (hex_digits n) ≤ 16
length-hex_digits n =
    let low = low_nibbles 16 n in
    hex_digits-cases (λ s. length s ≤ 16) n (λ e. omega arith)
      (λ p q. omega (
        arith,
        length-reverse (low ++ b'0' ∷ []),
        length-append low (b'0' ∷ []),
        length-low_nibbles-one n q,
      ))
      (λ p. omega (arith, length-reverse low, length-low_nibbles 16 n))

pub read_hex-hex_digits : (n : ℕ) → n < 2 ^ 64 → read_hex 0 (hex_digits n) ≡ n
read_hex-hex_digits n small =
    let low = low_nibbles 16 n in
    let value = read_hex-low_nibbles 16 n (omega arith) in
    hex_digits-cases (λ s. read_hex 0 s ≡ n) n (λ e. sym e)
      (λ p q. ap (read_hex 0) (reverse-append low (b'0' ∷ [])) ∙ value) (λ p. value)
