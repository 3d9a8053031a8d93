-- ===== src/Sdk/Itoa/Print.antt =====
-- `itoa` in base 10 prints the number.
use mathlib.Core.List.{reverse}
use mathlib.Core.Path.{subst}
use native.Mathlib.Decide.{ℕ_discrete, dec_lt}
use open_modality.Base.{
  ℕ, zero, suc, ◌+◌, ◌-◌, ◌/◌, ◌^◌, ◌<◌, ◌≤◌, ◌≡◌, ◌≢◌, ◌∙◌, refl, sym, ap, Bool, true, false,
  Option, some, List, [], ◌∷◌, ◌++◌, arith,
}
use open_modality.Base.Tests.{◌==◌, if◌then◌else◌}
use open_modality.Base.Lists.{
  length, drop, All, All-reverse, length-append, length-drop, length-reverse,
}
use open_modality.Base.Run.{Run, done}
use open_modality.Base.Words.{u64}
use open_modality.Sdk.Memory.{store}
use open_modality.Sdk.Str.{c_str}
use open_modality.Sdk.Str.Laws.{c_str-terminated}
use open_modality.Sdk.Itoa.{
  is_negative, negate, decimal_loop, finish_decimal, itoa_base10_convert, itoa,
}
use open_modality.Sdk.Itoa.Decimal.{
  low_digits, read_digits, read_decimal, read_digits-low_digits, decimal_loop_lem,
  finish_decimal-pos, finish_decimal-neg,
}

-- A call of `itoa` that leaves a terminated text in the buffer, as long as it was.
pub record Leaves (run : Run (Option (List ℕ))) (buf text : List ℕ) : Type 0 where
  pub post : List ℕ
  pub out : run ≡ done (some (text ++ 0 ∷ post))
  pub whole : length (text ++ 0 ∷ post) ≡ length buf

-- A call of `itoa` that leaves the text of a number in the buffer.
abbrev pub Prints : ℕ → ℕ → List ℕ → ℕ → Type 0
Prints fuel value buf base =
    (buf' : List ℕ) × (s : List ℕ) × (itoa fuel value buf base ≡ done (some buf'))
    × (c_str buf' ≡ some s)
    × (read_decimal s ≡ value)

-- The text of an `int64_t`: its digits, the highest first, with a minus sign or without.
abbrev pub magnitude_text : ℕ → List ℕ
magnitude_text m = reverse (low_digits 19 m)

abbrev pub decimal : ℕ → List ℕ
decimal value =
    if value == 0
    then b'0' ∷ []
    else if is_negative value
    then b'-' ∷ magnitude_text (negate value)
    else magnitude_text value

two_front : (l : List ℕ) → 2 ≤ length l → (x : ℕ) × (y : ℕ) × (post : List ℕ) × l ≡ x ∷ y ∷ post
two_front [] h = absurd (omega arith)
two_front (x ∷ []) h = absurd (omega arith)
two_front (x ∷ y ∷ post) h = (x, y, post, refl)

low_digits-All : (k n : ℕ) → All (λ c. b'0' ≤ c) (low_digits k n)
low_digits-All zero n = tt
low_digits-All (suc k) n = elim (ℕ_discrete n 0) [
  | yes z ↦ ground arith
  | no nz ↦ let rest = low_digits-All k (n / 10) in ground arith
]

length-low_digits : (k n : ℕ) → length (low_digits k n) ≤ k
length-low_digits zero n = omega arith
length-low_digits (suc k) n = ground (arith, length-low_digits k (n / 10))

length-low_digits-pos : (k n : ℕ) → 0 < n → 0 < length (low_digits (suc k) n)
length-low_digits-pos k n h = ground arith

read_decimal-digits : (s : List ℕ) → All (λ c. b'0' ≤ c) s → read_decimal s ≡ read_digits 0 s
read_decimal-digits [] all = refl
read_decimal-digits (c ∷ s) (digit, all) = ground arith

itoa-decimal :
    (fuel value : ℕ) (buf b : List ℕ)
    → itoa_base10_convert fuel value buf ≡ done b
    → itoa fuel value buf 10 ≡ done (some b)
unfolding itoa
itoa-decimal fuel value buf b e = rw e refl

itoa_base10_convert-zero :
    (fuel x y : ℕ) (post : List ℕ)
    → itoa_base10_convert fuel 0 (x ∷ y ∷ post) ≡ done (b'0' ∷ 0 ∷ post)
unfolding itoa_base10_convert store
itoa_base10_convert-zero fuel x y post = ground arith

itoa_base10_convert-nonzero :
    (fuel value m i : ℕ) (neg : Bool) (buf digits b : List ℕ)
    → value ≢ 0
    → is_negative value ≡ neg
    → (if neg then negate value else value) ≡ m
    → decimal_loop fuel m 0 buf ≡ done (i, digits)
    → finish_decimal fuel neg i digits ≡ done b
    → itoa_base10_convert fuel value buf ≡ done b
unfolding itoa_base10_convert
itoa_base10_convert-nonzero fuel value m i neg buf digits b nz sign magnitude looped finished =
    ground arith

digits-All : (s : List ℕ) → All (λ c. b'0' ≤ c) s → All (λ c. c ≢ 0) s
digits-All [] all = tt
digits-All (c ∷ s) (digit, all) = (λ z. omega arith, digits-All s all)

magnitude_text-All : (m : ℕ) → All (λ c. b'0' ≤ c) (magnitude_text m)
magnitude_text-All m = All-reverse (λ c. b'0' ≤ c) (low_digits 19 m) (low_digits-All 19 m)

magnitude_text-value : (m : ℕ) → m < 2 ^ 63 → read_digits 0 (magnitude_text m) ≡ m
magnitude_text-value m small = read_digits-low_digits 19 m (omega arith)

length-magnitude_text : (m : ℕ) → length (magnitude_text m) ≤ 19
length-magnitude_text m = omega (arith, length-reverse (low_digits 19 m), length-low_digits 19 m)

module _ (m : ℕ) (buf : List ℕ) (m_pos : 0 < m) (small : m < 2 ^ 63) (room : 21 ≤ length buf) where
  abbrev low : List ℕ
  low = low_digits 19 m

  abbrev text : List ℕ
  text = magnitude_text m

  behind : (x : ℕ) × (y : ℕ) × (post : List ℕ) × drop (length low) buf ≡ x ∷ y ∷ post
  behind =
      two_front (drop (length low) buf)
        (omega (arith, length-drop (length low) buf, length-low_digits 19 m))

  looped :
      (x y : ℕ) (post : List ℕ)
      → drop (length low) buf ≡ x ∷ y ∷ post
      → decimal_loop 20 m 0 buf ≡ done (length low, low ++ x ∷ y ∷ post)
  looped x y post e =
      decimal_loop_lem 19 m [] buf 0 refl (omega arith) small (omega arith)
      ∙ ap (λ k. done (k, low ++ drop (length low) buf)) (omega arith)
      ∙ ap (λ l. done (length low, low ++ l)) e

  size :
      (x y : ℕ) (post : List ℕ)
      → drop (length low) buf ≡ x ∷ y ∷ post
      → length text + 2 + length post ≡ length buf
  size x y post e =
      omega (
        arith,
        length-reverse low,
        ap length e,
        length-drop (length low) buf,
        length-low_digits 19 m,
      )

  print-pos : Leaves (itoa 20 m buf 10) buf text
  print-pos =
      let (x, y, post, e) = behind in
      let finished =
        finish_decimal-pos 19 (length low) low x (y ∷ post) refl (length-low_digits-pos 18 m m_pos)
          (omega (arith, length-low_digits 19 m)) (omega (arith, length-low_digits 19 m)) in
      let sign : is_negative m ≡ false = ground arith in
      record {
        post = y ∷ post;
        out = itoa-decimal 20 m buf _ (
            itoa_base10_convert-nonzero 20 m m (length low) false buf _ _ (λ z. omega arith) sign
              refl (looped x y post e) finished);
        whole = omega (arith, length-append text (0 ∷ y ∷ post), size x y post e);
      }

  print-neg :
      (value : ℕ)
      → value < 2 ^ 64
      → value + m ≡ 2 ^ 64
      → Leaves (itoa 20 value buf 10) buf (b'-' ∷ text)
  print-neg value bound opposite =
      let (x, y, post, e) = behind in
      let finished =
        finish_decimal-neg 19 (length low) low x y post refl (omega (arith, length-low_digits 19 m))
          (omega (arith, length-low_digits 19 m)) in
      let sign : is_negative value ≡ true = ground arith in
      let magnitude : negate value ≡ m = omega arith in
      record {
        post = post;
        out = itoa-decimal 20 value buf _ (
            itoa_base10_convert-nonzero 20 value m (length low) true buf _ _ (λ z. omega arith) sign
              magnitude (looped x y post e) finished);
        whole = omega (arith, length-append text (0 ∷ post), size x y post e);
      }

-- The three forms of a text.
decimal-zero : (value : ℕ) → value ≡ 0 → decimal value ≡ b'0' ∷ []
decimal-zero value z = ground arith

decimal-pos : (value : ℕ) → 0 < value → value < 2 ^ 63 → decimal value ≡ magnitude_text value
decimal-pos value h small =
    let z : (value == 0) ≡ false = ground arith in
    let sign : is_negative value ≡ false = ground arith in rw (z, sign) refl

decimal-neg :
    (value m : ℕ)
    → 2 ^ 63 < value
    → value < 2 ^ 64
    → m ≡ 2 ^ 64 - value
    → decimal value ≡ b'-' ∷ magnitude_text m
decimal-neg value m large bound e =
    let z : (value == 0) ≡ false = ground arith in
    let sign : is_negative value ≡ true = ground arith in
    let magnitude : negate value ≡ m = omega arith in rw (z, sign, magnitude) refl

-- A property of the texts of all numbers but the lowest.
decimal-cases :
    (P : List ℕ → Type 0) (value : ℕ)
    → value < 2 ^ 64
    → value ≢ 2 ^ 63
    → (value ≡ 0 → P (b'0' ∷ []))
    → (0 < value → value < 2 ^ 63 → P (magnitude_text value))
    → ((m : ℕ) → 0 < m → m < 2 ^ 63 → value + m ≡ 2 ^ 64 → P (b'-' ∷ magnitude_text m))
    → P (decimal value)
decimal-cases P value bound not_lowest none pos neg = elim (dec_lt 0 value) [
  | no z ↦ let e : value ≡ 0 = omega arith in subst P (sym (decimal-zero value e)) (none e)
  | yes p ↦ elim (dec_lt value (2 ^ 63)) [
    | yes q ↦ subst P (sym (decimal-pos value p q)) (pos p q)
    | no q ↦
        subst P (sym (decimal-neg value (2 ^ 64 - value) (omega arith) bound refl))
          (neg (2 ^ 64 - value) (omega arith) (omega arith) (omega arith))
  ]
]

module _ (value : ℕ) (bound : value < 2 ^ 64) (not_lowest : value ≢ 2 ^ 63) where
  pub decimal-All : All (λ c. c ≢ 0) (decimal value)
  decimal-All =
      decimal-cases (All (λ c. c ≢ 0)) value bound not_lowest (λ e. (λ z. omega arith, tt))
        (λ p q. digits-All (magnitude_text value) (magnitude_text-All value))
        (λ m p q e. (λ z. omega arith, digits-All (magnitude_text m) (magnitude_text-All m)))

  pub length-decimal : length (decimal value) ≤ 20
  length-decimal =
      decimal-cases (λ s. length s ≤ 20) value bound not_lowest (λ e. omega arith)
        (λ p q. omega (arith, length-magnitude_text value))
        (λ m p q e. omega (arith, length-magnitude_text m))

  read_decimal-decimal : read_decimal (decimal value) ≡ value
  read_decimal-decimal =
      decimal-cases (λ s. read_decimal s ≡ value) value bound not_lowest (λ e. sym e)
        (λ p q.
          read_decimal-digits (magnitude_text value) (magnitude_text-All value)
          ∙ magnitude_text-value value q)
        (λ m p q e. ap (λ k. u64 (2 ^ 64 - k)) (magnitude_text-value m q) ∙ omega arith)

  pub itoa-Leaves :
      (buf : List ℕ) → 21 ≤ length buf → Leaves (itoa 20 value buf 10) buf (decimal value)
  itoa-Leaves buf room =
      decimal-cases (Leaves (itoa 20 value buf 10) buf) value bound not_lowest
        (λ z.
          let (x, y, post, e) = two_front buf (omega arith) in
          record {
            post = post;
            out = itoa-decimal 20 value buf _ (rw (z, e) (itoa_base10_convert-zero 20 x y post));
            whole = omega (arith, ap length e);
          })
        (λ p q. print-pos value buf p q room) (λ m p q e. print-neg m buf p q room value bound e)

-- With a buffer of at least 21 characters, `itoa` in base 10 ends for every `int64_t` but the lowest,
-- and leaves a terminated string that reads back as the number.
pub itoa_lem :
    (value : ℕ) (buf : List ℕ)
    → value < 2 ^ 64
    → value ≢ 2 ^ 63
    → 21 ≤ length buf
    → Prints 20 value buf 10
itoa_lem value buf bound not_lowest room =
    let printed = itoa-Leaves value bound not_lowest buf room in
    (
      decimal value ++ 0 ∷ printed.post,
      decimal value,
      printed.out,
      c_str-terminated (decimal value) printed.post (decimal-All value bound not_lowest),
      read_decimal-decimal value bound not_lowest,
    )
