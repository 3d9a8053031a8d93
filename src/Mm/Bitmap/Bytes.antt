-- ===== src/Mm/Bitmap/Bytes.antt =====
-- One bit of one byte: what SETBIT, CLRBIT and TESTBIT do to it and to its neighbours, checked over
-- all bytes and bits; then the same for a bit of a whole bitmap.
use open_modality.Base.{
  ℕ, zero, suc, ◌*◌, ◌/◌, ◌%◌, ◌<◌, ◌≡◌, refl, Bool, true, false, not, List, arith, ◌∙◌,
}
use open_modality.Base.Tests.{◌==◌, if◌then◌else◌}
use open_modality.Base.Lists.{
  length, get_or, set, length-set, get_elem?-eq-get_or, get_or-set_self, get_or-set_ne,
}
use native.Mathlib.Decide.{ℕ_discrete}
use open_modality.Base.Run.{done}
use open_modality.Mm.Bitmap.{byte_set, byte_clr, byte_test, set_bit, clr_bit, test_bit}

bool_eq : Bool → Bool → Bool
bool_eq true b = b
bool_eq false b = not b

bool_eq_sound : (a b : Bool) → bool_eq a b ≡ true → a ≡ b
unfolding bool_eq
bool_eq_sound true true h = refl
bool_eq_sound true false h = ground arith
bool_eq_sound false true h = ground arith
bool_eq_sound false false h = refl

-- A test that every number below a bound passes.
passes : (ℕ → Bool) → ℕ → Bool
passes test zero = true
passes test (suc bound) = elim (test bound) [ true ↦ passes test bound | false ↦ false ]

passes-at : (test : ℕ → Bool) (bound n : ℕ) → n < bound → passes test bound ≡ true → test n ≡ true
unfolding passes
passes-at test zero n below all = elim below [ ]
passes-at test (suc bound) n below all = ground (arith, passes-at test bound n)

abbrev set_law : ℕ → ℕ → ℕ → Bool
set_law x k j = bool_eq (byte_test (byte_set x k) j) (if k == j then true else byte_test x j)

abbrev clr_law : ℕ → ℕ → ℕ → Bool
clr_law x k j = bool_eq (byte_test (byte_clr x k) j) (if k == j then false else byte_test x j)

set_table : passes (λ x. passes (λ k. passes (set_law x k) 8) 8) 256 ≡ true
unfolding passes bool_eq byte_set byte_test
set_table = refl

clr_table : passes (λ x. passes (λ k. passes (clr_law x k) 8) 8) 256 ≡ true
unfolding passes bool_eq byte_clr byte_test
clr_table = refl

byte_test-byte_set :
    (x k j : ℕ)
    → x < 256
    → k < 8
    → j < 8
    → byte_test (byte_set x k) j ≡ (if k == j then true else byte_test x j)
byte_test-byte_set x k j hx hk hj = bool_eq_sound _ _ (
    passes-at (set_law x k) 8 j hj (
      passes-at (λ k. passes (set_law x k) 8) 8 k hk
        (passes-at (λ x. passes (λ k. passes (set_law x k) 8) 8) 256 x hx set_table)))

byte_test-byte_clr :
    (x k j : ℕ)
    → x < 256
    → k < 8
    → j < 8
    → byte_test (byte_clr x k) j ≡ (if k == j then false else byte_test x j)
byte_test-byte_clr x k j hx hk hj = bool_eq_sound _ _ (
    passes-at (clr_law x k) 8 j hj (
      passes-at (λ k. passes (clr_law x k) 8) 8 k hk
        (passes-at (λ x. passes (λ k. passes (clr_law x k) 8) 8) 256 x hx clr_table)))

-- Bit `j` of the bitmap, false past its end.
abbrev pub bit_at : List ℕ → ℕ → Bool
bit_at a j = byte_test (get_or a (j / 8) 0) (j % 8)

abbrev pub IsBytes : List ℕ → Type 0
IsBytes a = (i : ℕ) → get_or a i 0 < 256

-- The byte that a mark writes.
mark_byte : Bool → ℕ → ℕ → ℕ
mark_byte alloc x k = if alloc then byte_set x k else byte_clr x k

-- What SETBIT (at `true`) or CLRBIT (at `false`) leaves of the bitmap.
pub marked : Bool → List ℕ → ℕ → List ℕ
marked alloc a b = set a (b / 8) (mark_byte alloc (get_or a (b / 8) 0) (b % 8))

pub marked_run :
    (alloc : Bool) (a : List ℕ) (b : ℕ)
    → b < 8 * length a
    → (if alloc then set_bit a b else clr_bit a b) ≡ done (marked alloc a b)
unfolding marked mark_byte set_bit clr_bit
marked_run true a b h = rw (get_elem?-eq-get_or a (b / 8) 0 (omega arith))
marked_run false a b h = rw (get_elem?-eq-get_or a (b / 8) 0 (omega arith))

pub test_bit-bit_at : (a : List ℕ) (b : ℕ) → b < 8 * length a → test_bit a b ≡ done (bit_at a b)
unfolding test_bit
test_bit-bit_at a b h = rw (get_elem?-eq-get_or a (b / 8) 0 (omega arith))

pub length-marked : (alloc : Bool) (a : List ℕ) (b : ℕ) → length (marked alloc a b) ≡ length a
unfolding marked
length-marked alloc a b = length-set a (b / 8) _

mark_byte-lt : (alloc : Bool) (x k : ℕ) → mark_byte alloc x k < 256
unfolding mark_byte byte_set byte_clr
mark_byte-lt true x k = omega arith
mark_byte-lt false x k = omega arith

mark_byte-test :
    (alloc : Bool) (x k j : ℕ)
    → x < 256
    → k < 8
    → j < 8
    → byte_test (mark_byte alloc x k) j ≡ (if k == j then alloc else byte_test x j)
unfolding mark_byte
mark_byte-test true = byte_test-byte_set
mark_byte-test false = byte_test-byte_clr

module _ (alloc : Bool) (a : List ℕ) (b : ℕ) (inside : b < 8 * length a) (bytes : IsBytes a) where
  pub marked-IsBytes : IsBytes (marked alloc a b)
  unfolding marked
  marked-IsBytes i = elim (ℕ_discrete (b / 8) i) [
    | yes e ↦ rw (← e, get_or-set_self a (b / 8) _ 0 (omega arith)) (mark_byte-lt alloc _ _)
    | no e ↦ rw (get_or-set_ne a (b / 8) i _ 0 e) (bytes i)
  ]

  pub bit_at-marked : (j : ℕ) → bit_at (marked alloc a b) j ≡ (if b == j then alloc else bit_at a j)
  unfolding marked
  bit_at-marked j = elim (ℕ_discrete (b / 8) (j / 8)) [
    | yes e ↦
        rw (← e, get_or-set_self a (b / 8) _ 0 (omega arith))
          (mark_byte-test alloc _ (b % 8) (j % 8) (bytes _) (omega arith) (omega arith)
            ∙ same_byte e)
    | no e ↦ rw (get_or-set_ne a (b / 8) (j / 8) _ 0 e) (ground arith)
  ]
    where
      same_byte :
          b / 8 ≡ j / 8
          → (if b % 8 == j % 8 then alloc else byte_test (get_or a (b / 8) 0) (j % 8))
            ≡ (if b == j then alloc else byte_test (get_or a (b / 8) 0) (j % 8))
      same_byte e = ground arith
