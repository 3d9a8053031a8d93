-- ===== src/Sdk/Vsnprintf/Overread.antt =====
-- `vsnprintf` on a format that ends in the middle of a conversion.
use open_modality.Base.{ℕ, suc, ◌^◌, ◌<◌, ◌≡◌, ◌≢◌, inr, refl, ap, List, [], ◌∷◌, ◌++◌, arith}
use open_modality.Base.Lists.{length, replicate, All}
use open_modality.Base.Run.{done, fault}
use open_modality.Sdk.Memory.{load}
use open_modality.Sdk.Vsnprintf.{
  Vars, text_loop, read_width, conversion, directive, format_loop, vsnprintf,
}
use open_modality.Sdk.Vsnprintf.Buffer.{grown, grown_room, within, text_loop_lem}
use open_modality.Sdk.Vsnprintf.Loop.{vars, format_loop-next}

module _ (n : ℕ) (buf : List ℕ) (room : n < length buf) (small : n < 2 ^ 63) where
  directive_end : (v : Vars) → v.pad_width ≡ 0 → directive (suc n) (0 ∷ []) v ≡ done (v, [])
  unfolding directive read_width conversion load
  directive_end v none_set = refl

  past_end :
      (fuel : ℕ) (k : List ℕ) (mark : ℕ) (num_buf : List ℕ)
      → length k < n
      → format_loop (suc fuel) (suc n) [] (vars n buf room small k mark [] num_buf) ≡ fault
  unfolding format_loop text_loop
  past_end fuel k mark num_buf h = let test = within n buf room small (length k) h in ground arith

-- If the format is plain text without conversions, and a '%' at its very end, and the buffer has room
-- for the text, its terminator and one more, `vsnprintf` reads past the terminator of the format.
pub vsnprintf_percent_end :
    (fuel n : ℕ) (buf lit : List ℕ)
    → n < length buf
    → n < 2 ^ 63
    → length lit < n
    → All (λ c. (c ≢ 0) × (c ≢ b'%')) lit
    → vsnprintf (suc (suc fuel)) buf (suc n) (lit ++ b'%' ∷ 0 ∷ []) [] ≡ fault
unfolding vsnprintf
vsnprintf_percent_end fuel n [] lit room small short plain = absurd (omega arith)
vsnprintf_percent_end fuel n (x ∷ buf) lit room small short plain =
    let all = x ∷ buf in
    let k = grown n [] lit in
    let inside : length k < n = omega (arith, ap length (grown_room n [] lit (omega arith))) in
    let read =
      text_loop_lem n all room small lit [] x b'%' (0 ∷ []) (omega arith) plain (inr refl) in
    rw
      (
        format_loop-next n all room small (suc fuel) (lit ++ b'%' ∷ 0 ∷ []) (0 ∷ []) [] k x _ b'%'
            [] (replicate 256 0) (omega arith) read _ _ (λ z. omega arith) inside
            (directive_end n all room small _ refl),
        past_end n all room small fuel k _ (replicate 256 0) inside,
      )
      refl
