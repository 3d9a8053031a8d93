-- ===== src/Tests/Printing.antt =====
-- `vsnprintf`, `printf` and `panic`.
use open_modality.Base.{ℕ, suc, ◌-◌, ◌^◌, ◌<◌, ◌≡◌, refl, ap, List, [], ◌∷◌, ◌++◌, arith}
use open_modality.Base.Lists.{length, take, drop, replicate}
use open_modality.Base.Run.{done, fault}
use open_modality.Base.Words.{u32}
use open_modality.Sdk.Vsnprintf.{Arg, pointer, vsnprintf}
use open_modality.Sdk.Vsnprintf.Format.{
  Format, last, next, padded, string, percent, encode, arguments, render, IsFormat,
}
use open_modality.Sdk.Vsnprintf.Render.{vsnprintf_lem}
use open_modality.Sdk.Vsnprintf.Overread.{vsnprintf_percent_end}
use open_modality.Core.Trace.{panic_text, printf, panic}
use open_modality.Core.Trace.Laws.{printf_lem, printf_nothing, panic_lem}

-- "n=%04d %s." with -42 and "ok".
abbrev numbered : Format
numbered =
    next (b'n' ∷ b'=' ∷ []) (padded (b'4' ∷ []) (2 ^ 64 - 42))
      (next (b' ' ∷ []) (string (b'o' ∷ b'k' ∷ []) []) (last (b'.' ∷ [])))

numbered-IsFormat : IsFormat numbered
numbered-IsFormat = (
  (((λ z. omega arith), (λ z. omega arith)), (((λ z. omega arith), (λ z. omega arith)), tt)),
  (omega arith, (λ z. omega arith), ((omega arith, omega arith), tt)),
  (
    (((λ z. omega arith), (λ z. omega arith)), tt),
    ((λ z. omega arith), ((λ z. omega arith), tt)),
    (((λ z. omega arith), (λ z. omega arith)), tt),
  ),
)

vsnprintf_lem_example :
    (ret : ℕ) × (vsnprintf 3 (replicate 16 7) 16 (encode numbered []) (arguments numbered)
      ≡ done (
        take 15 (render numbered)
            ++ 0 ∷ drop (suc (length (take 15 (render numbered)))) (replicate 16 7),
        ret,
      ))
    × (length (render numbered) < 15 → ret ≡ u32 (length (render numbered)))
vsnprintf_lem_example =
    vsnprintf_lem 2 15 (replicate 16 7) numbered [] (omega arith) (omega arith) (omega arith)
      numbered-IsFormat tt (omega arith)

vsnprintf_percent_end_example :
    vsnprintf 5 (replicate 8 7) 5 (b'5' ∷ b'0' ∷ b'%' ∷ 0 ∷ []) [] ≡ fault
vsnprintf_percent_end_example =
    vsnprintf_percent_end 3 4 (replicate 8 7) (b'5' ∷ b'0' ∷ []) (omega arith) (omega arith)
      (omega arith)
      (((λ z. omega arith), (λ z. omega arith)), (((λ z. omega arith), (λ z. omega arith)), tt))

-- "o%s%%" with "k".
abbrev short : Format
short = next (b'o' ∷ []) (string (b'k' ∷ []) []) (next [] percent (last []))

short-IsFormat : IsFormat short
short-IsFormat =
    ((((λ z. omega arith), (λ z. omega arith)), tt), ((λ z. omega arith), tt), (tt, tt, tt))

printf_lem_example :
    printf 3 (replicate 128 7) (encode short []) (arguments short) ≡ done (b'o' ∷ b'k' ∷ b'%' ∷ [])
printf_lem_example =
    printf_lem 2 (replicate 128 7) short [] refl short-IsFormat tt (omega arith)
      ((λ z. omega arith), ((λ z. omega arith), ((λ z. omega arith), tt)))
      (λ e. absurd (omega (arith, ap length e)))

printf_nothing_example :
    printf 2 (replicate 128 7) (b'%' ∷ b's' ∷ 0 ∷ []) (pointer (0 ∷ []) ∷ []) ≡ fault
printf_nothing_example =
    printf_nothing 1 (replicate 128 7) (next [] (string [] []) (last [])) [] refl (tt, tt, tt) tt
      (omega arith) refl

panic_lem_example :
    (panic 3
        (replicate 256 0)
        (replicate 128 7)
        (replicate 128 7)
        0
        (encode short [])
        (arguments short)
      ≡ done (1, panic_text ++ b'o' ∷ b'k' ∷ b'%' ∷ []))
    × ((fuel : ℕ) (b1 b2 b3 fmt : List ℕ) (args : List Arg)
        → panic fuel b1 b2 b3 1 fmt args ≡ done (1, []))
panic_lem_example =
    panic_lem 1 (replicate 256 0) (replicate 128 7) (replicate 128 7) short [] refl refl refl
      short-IsFormat tt (omega arith)
      ((λ z. omega arith), ((λ z. omega arith), ((λ z. omega arith), tt)))
      (λ e. absurd (omega (arith, ap length e)))
