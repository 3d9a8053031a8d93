-- ===== src/Tests/Numbers.antt =====
-- The printing of numbers.
use open_modality.Base.{◌^◌, ◌-◌, ◌≡◌, refl, some, [], ◌∷◌, arith}
use open_modality.Base.Lists.{replicate}
use open_modality.Base.Run.{done}
use open_modality.Sdk.Memory.{load, store}
use open_modality.Sdk.Itoa.{
  decimal_loop, reverse_loop, finish_decimal, itoa_base10_convert, hex_loop, finish_hex,
  itoa_convert_base16, itoa,
}
use open_modality.Sdk.Itoa.Print.{Prints, itoa_lem}

itoa_lem_example : Prints 20 (2 ^ 64 - 42) (replicate 21 0) 10
itoa_lem_example =
    itoa_lem (2 ^ 64 - 42) (replicate 21 0) (omega arith) (λ e. omega arith) (omega arith)

-- -42, 0x2A, and the lowest number, of which only the sign is printed.
itoa_minus_forty_two :
    itoa 20 (2 ^ 64 - 42) (replicate 5 7) 10 ≡ done (some (b'-' ∷ b'4' ∷ b'2' ∷ 0 ∷ 7 ∷ []))
unfolding itoa itoa_base10_convert decimal_loop store finish_decimal reverse_loop load
itoa_minus_forty_two = refl

itoa_hexadecimal :
    itoa 20 42 (replicate 6 7) 16 ≡ done (some (b'0' ∷ b'x' ∷ b'2' ∷ b'A' ∷ 0 ∷ 7 ∷ []))
unfolding itoa itoa_convert_base16 hex_loop store finish_hex reverse_loop load
itoa_hexadecimal = refl

itoa_lowest : itoa 20 (2 ^ 63) (replicate 3 7) 10 ≡ done (some (b'-' ∷ 0 ∷ 7 ∷ []))
unfolding itoa itoa_base10_convert decimal_loop store finish_decimal reverse_loop load
itoa_lowest = refl
