-- ===== src/Sdk/Itoa/Decimal.antt =====
-- The two loops of `itoa` in base 10: the digits of a number, and what is done with them.
use mathlib.Core.List.{reverse, reverse-cons, reverse-append}
use native.Mathlib.Decide.{ℕ_discrete}
use native.Mathlib.Nat.{pow-suc}
use open_modality.Base.{
  ℕ, zero, suc, ◌+◌, ◌-◌, ◌*◌, ◌/◌, ◌%◌, ◌^◌, ◌<◌, ◌≤◌, ◌≡◌, ◌≢◌, ◌∙◌, refl, sym, ap, true, false,
  List, [], ◌∷◌, ◌++◌, append_assoc, arith,
}
use open_modality.Base.Tests.{◌==◌, if◌then◌else◌}
use open_modality.Base.Lists.{length, drop, length-append}
use open_modality.Base.Run.{done}
use open_modality.Base.Words.{u64, sub64}
use open_modality.Sdk.Memory.{store}
use open_modality.Sdk.Itoa.{decimal_loop, finish_decimal}
use open_modality.Sdk.Itoa.Reverse.{store-at, reverse_loop_lem}

-- The digits of a number, the lowest first.
abbrev pub low_digits : ℕ → ℕ → List ℕ
low_digits zero n = []
low_digits (suc k) n = elim (n == 0) [ true ↦ [] | false ↦ (b'0' + n % 10) ∷ low_digits k (n / 10) ]

-- A number read from its digits, the highest first.
abbrev pub read_digits : ℕ → List ℕ → ℕ
read_digits n [] = n
read_digits n (c ∷ s) = read_digits (n * 10 + (c - b'0')) s

-- The `int64_t` that a text stands for, as its bit pattern: digits, with a minus sign or without.
abbrev pub read_decimal : List ℕ → ℕ
read_decimal [] = 0
read_decimal (c ∷ s) = if c == b'-' then u64 (2 ^ 64 - read_digits 0 s) else read_digits 0 (c ∷ s)

read_digits-last :
    (n : ℕ) (s : List ℕ) (c : ℕ) → read_digits n (s ++ c ∷ []) ≡ read_digits n s * 10 + (c - b'0')
read_digits-last n [] c = refl
read_digits-last n (d ∷ s) c = read_digits-last (n * 10 + (d - b'0')) s c

low_digits-step : (k n : ℕ) → n ≢ 0 → low_digits (suc k) n ≡ (b'0' + n % 10) ∷ low_digits k (n / 10)
low_digits-step k n nz = ground arith

low_digits-end : (k n : ℕ) → n ≡ 0 → low_digits k n ≡ []
low_digits-end zero n z = refl
low_digits-end (suc k) n z = ground arith

pub read_digits-low_digits : (k n : ℕ) → n < 10 ^ k → read_digits 0 (reverse (low_digits k n)) ≡ n
read_digits-low_digits zero n h = ground arith
read_digits-low_digits (suc k) n h = elim (ℕ_discrete n 0) [
  | yes z ↦ rw z refl
  | no nz ↦
      let ih = read_digits-low_digits k (n / 10) (omega (arith, pow-suc 10 k)) in
      let low = low_digits k (n / 10) in
      rw
        (
          low_digits-step k n nz,
          reverse-cons (b'0' + n % 10) low,
          read_digits-last 0 (reverse low) (b'0' + n % 10),
          ih,
        )
        (omega arith)
]

decimal_loop-round :
    (fuel n i : ℕ) (buf buf' : List ℕ)
    → n ≢ 0
    → n < 2 ^ 63
    → store buf i (b'0' + n % 10) ≡ done buf'
    → decimal_loop (suc fuel) n i buf ≡ decimal_loop fuel (n / 10) (i + 1) buf'
unfolding decimal_loop
decimal_loop-round fuel n i buf buf' nz small stored = ground arith

decimal_loop-end :
    (fuel n i : ℕ) (buf : List ℕ) → n ≡ 0 → decimal_loop (suc fuel) n i buf ≡ done (i, buf)
unfolding decimal_loop
decimal_loop-end fuel n i buf z = ground arith

pub decimal_loop_lem :
    (fuel n : ℕ) (pre rest : List ℕ) (i : ℕ)
    → i ≡ length pre
    → n < 10 ^ fuel
    → n < 2 ^ 63
    → fuel ≤ length rest
    → decimal_loop (suc fuel) n i (pre ++ rest)
      ≡ done (
        i + length (low_digits fuel n),
        pre ++ (low_digits fuel n ++ drop (length (low_digits fuel n)) rest),
      )
decimal_loop_lem zero n pre rest i e h pos room =
    decimal_loop-end zero n i (pre ++ rest) (omega arith)
    ∙ ap (λ k. done (k, pre ++ rest)) (omega arith)
decimal_loop_lem (suc fuel) n pre [] i e h pos room = absurd (omega arith)
decimal_loop_lem (suc fuel) n pre (x ∷ rest) i e h pos room = elim (ℕ_discrete n 0) [
  | yes z ↦
      decimal_loop-end (suc fuel) n i (pre ++ x ∷ rest) z
      ∙ ap (λ k. done (k, pre ++ x ∷ rest)) (omega arith)
      ∙ ap (λ l. done (i + length l, pre ++ (l ++ drop (length l) (x ∷ rest))))
          (sym (low_digits-end (suc fuel) n z))
  | no nz ↦
      let d = b'0' + n % 10 in
      let low = low_digits fuel (n / 10) in
      decimal_loop-round (suc fuel) n i (pre ++ x ∷ rest) (pre ++ d ∷ rest) nz pos
        (store-at pre x rest i e d)
      ∙ ap (decimal_loop (suc fuel) (n / 10) (i + 1)) (sym (append_assoc pre (d ∷ []) rest))
      ∙ decimal_loop_lem fuel (n / 10) (pre ++ d ∷ []) rest (i + 1)
          (omega (arith, length-append pre (d ∷ []))) (omega (arith, pow-suc 10 fuel)) (omega arith)
          (omega arith)
      ∙ ap (λ k. done (k, (pre ++ d ∷ []) ++ (low ++ drop (length low) rest))) (omega arith)
      ∙ ap (λ l. done (i + suc (length low), l))
          (append_assoc pre (d ∷ []) (low ++ drop (length low) rest))
      ∙ ap (λ l. done (i + length l, pre ++ (l ++ drop (length l) (x ∷ rest))))
          (sym (low_digits-step fuel n nz))
]

-- What the buffer holds when the digits are in it: the sign and the terminator come behind them, and
-- the rest is turned round.
pub finish_decimal-pos :
    (fuel i : ℕ) (low : List ℕ) (x : ℕ) (post : List ℕ)
    → i ≡ length low
    → 0 < i
    → i < 2 ^ 63
    → length low ≤ 2 * fuel
    → finish_decimal (suc fuel) false i (low ++ x ∷ post) ≡ done (reverse low ++ 0 ∷ post)
unfolding finish_decimal
finish_decimal-pos fuel i low x post e some_digit small enough =
    let ended = store-at low x post i e 0 in
    let turned =
      reverse_loop_lem fuel [] low (0 ∷ post) 0 (sub64 i 1) enough refl (omega arith)
        (omega arith) in
    rw (ended, turned) refl

pub finish_decimal-neg :
    (fuel i : ℕ) (low : List ℕ) (x y : ℕ) (post : List ℕ)
    → i ≡ length low
    → i < 2 ^ 63
    → length low < 2 * fuel
    → finish_decimal (suc fuel) true i (low ++ x ∷ y ∷ post)
      ≡ done (b'-' ∷ (reverse low ++ 0 ∷ post))
unfolding finish_decimal
finish_decimal-neg fuel i low x y post e small enough =
    let signed = store-at low x (y ∷ post) i e b'-' in
    let digits = low ++ b'-' ∷ [] in
    let count = length-append low (b'-' ∷ []) in
    let ended : store (low ++ b'-' ∷ y ∷ post) (i + 1) 0 ≡ done (digits ++ 0 ∷ post) =
      ap (λ l. store l (i + 1) 0) (sym (append_assoc low (b'-' ∷ []) (y ∷ post)))
      ∙ store-at digits y post (i + 1) (omega arith) 0 in
    let turned =
      reverse_loop_lem fuel [] digits (0 ∷ post) 0 (sub64 (i + 1) 1) (omega arith) refl
        (omega arith) (omega arith) in
    rw (signed, ended, turned) (ap (λ l. done (l ++ 0 ∷ post)) (reverse-append low (b'-' ∷ [])))
