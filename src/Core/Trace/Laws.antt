-- ===== src/Core/Trace/Laws.antt =====
-- What `printf` and `panic` send out.
use mathlib.Core.Path.{subst}
use open_modality.Base.{
  append-nil, ℕ, zero, suc, ◌^◌, ◌<◌, ◌≤◌, ◌≡◌, ◌≢◌, ◌∙◌, refl, sym, ap, false, some, List, [], ◌∷◌,
  ◌++◌, arith,
}
use open_modality.Base.Tests.{◌==◌}
use open_modality.Base.Lists.{length, take, drop, All, length-append, length-take, length-drop}
use open_modality.Base.Run.{done, fault}
use open_modality.Base.Words.{sub64}
use open_modality.Sdk.Str.{strlen}
use open_modality.Sdk.Str.Laws.{strlen_lem, c_str-terminated}
use open_modality.Sdk.Vsnprintf.{Arg}
use open_modality.Sdk.Vsnprintf.Format.{
  string, Format, last, next, encode, arguments, render, IsFormat, conversions,
}
use open_modality.Sdk.Vsnprintf.Render.{IsPrinting, vsnprintf_lem}
use open_modality.Core.Trace.{
  mu_uart_write, trace_write, panic_text, printf, mu_panic_preamble, panic,
}

All-take : (n : ℕ) (s : List ℕ) → All (λ c. c ≢ 0) s → All (λ c. c ≢ 0) (take n s)
All-take zero s all = tt
All-take (suc n) [] all = tt
All-take (suc n) (c ∷ s) (here, all) = (here, All-take n s all)

-- A count that is not zero is the number of bytes that go out.
mu_uart_write_lem :
    (c : ℕ) (s post : List ℕ)
    → suc (length s) < 2 ^ 64
    → mu_uart_write (c ∷ (s ++ post)) (suc (length s)) ≡ done (c ∷ s)
unfolding mu_uart_write
mu_uart_write_lem c [] post h = refl
mu_uart_write_lem c (d ∷ s) post h =
    let ih = mu_uart_write_lem d s post (omega arith) in
    let less : sub64 (suc (suc (length s))) 1 ≡ suc (length s) = omega arith in
    let on : sub64 (suc (suc (length s))) 1 == 0 ≡ false = ground arith in ground arith

-- A count past the object is a fault.
mu_uart_write_past :
    (s : List ℕ) (rcx : ℕ) → length s < sub64 rcx 1 → rcx < 2 ^ 64 → mu_uart_write s rcx ≡ fault
unfolding mu_uart_write
mu_uart_write_past [] rcx h small = refl
mu_uart_write_past (c ∷ s) rcx h small =
    let ih = mu_uart_write_past s (sub64 rcx 1) (omega arith) (omega arith) in ground arith

trace_write-terminated :
    (s post : List ℕ)
    → All (λ c. c ≢ 0) s
    → s ≢ []
    → length (s ++ 0 ∷ post) < 2 ^ 64
    → trace_write (some (s ++ 0 ∷ post)) ≡ done s
unfolding trace_write
trace_write-terminated [] post all some_text size = absurd (some_text refl)
trace_write-terminated (c ∷ s) post all some_text size =
    let len : strlen ((c ∷ s) ++ 0 ∷ post) ≡ done (suc (length s)) =
      strlen_lem ((c ∷ s) ++ 0 ∷ post) size ∙ rw (c_str-terminated (c ∷ s) post all) refl in
    let more = length-append s (0 ∷ post) in rw len (mu_uart_write_lem c s (0 ∷ post) (omega arith))

trace_write-nothing : (post : List ℕ) → length post < 2 ^ 63 → trace_write (some (0 ∷ post)) ≡ fault
unfolding trace_write
trace_write-nothing post size =
    let len : strlen (0 ∷ post) ≡ done 0 =
      strlen_lem (0 ∷ post) (omega arith) ∙ rw (c_str-terminated [] post tt) refl in
    rw len (mu_uart_write_past (0 ∷ post) 0 (omega arith) (omega arith))

take-nonempty : (n : ℕ) (s : List ℕ) → s ≢ [] → take (suc n) s ≢ []
take-nonempty n [] some_text = some_text
take-nonempty n (c ∷ s) some_text = λ e. absurd (omega (arith, ap length e))

-- If the format is one in which there is something to print, with an argument of its kind for each
-- conversion, and its text is not empty and holds no zero byte, `printf` sends out the first 127
-- bytes of the text, whatever the stack holds under its buffer. One round for each conversion and
-- one more are enough.
pub printf_lem :
    (fuel : ℕ) (buf : List ℕ) (f : Format) (rest : List ℕ)
    → length buf ≡ 128
    → IsFormat f
    → IsPrinting f
    → conversions f ≤ fuel
    → All (λ c. c ≢ 0) (render f)
    → render f ≢ []
    → printf (suc fuel) buf (encode f rest) (arguments f) ≡ done (take 127 (render f))
unfolding printf
printf_lem fuel buf f rest size valid printing enough chars some_text =
    let (ret, run, counts) =
      vsnprintf_lem fuel 127 buf f rest (omega arith) (omega arith) (omega arith) valid printing
        enough in
    let cut = take 127 (render f) in
    let post = drop (suc (length cut)) buf in
    rw run (
      trace_write-terminated cut post (All-take 127 (render f) chars)
        (take-nonempty 126 (render f) some_text)
        (omega (
          arith,
          length-append cut (0 ∷ post),
          length-drop (suc (length cut)) buf,
          length-take 127 (render f),
        )))

-- If a format has conversions but the whole text that it stands for is empty, `printf` runs off the end
-- of its buffer.
pub printf_nothing :
    (fuel : ℕ) (buf : List ℕ) (f : Format) (rest : List ℕ)
    → length buf ≡ 128
    → IsFormat f
    → IsPrinting f
    → conversions f ≤ fuel
    → render f ≡ []
    → printf (suc fuel) buf (encode f rest) (arguments f) ≡ fault
unfolding printf trace_write
printf_nothing fuel buf f rest size valid printing enough nothing =
    let (ret, run, counts) =
      vsnprintf_lem fuel 127 buf f rest (omega arith) (omega arith) (omega arith) valid printing
        enough in
    let empty =
      run ∙ ap (λ t. done (take 127 t ++ 0 ∷ drop (suc (length (take 127 t))) buf, ret)) nothing in
    rw empty (trace_write-nothing (drop 1 buf) (omega (arith, length-drop 1 buf)))

panic_text-plain : All (λ c. (c ≢ 0) × (c ≢ b'%')) panic_text
panic_text-plain = (
  ((λ z. omega arith), (λ z. omega arith)),
  (
    ((λ z. omega arith), (λ z. omega arith)),
    (
      ((λ z. omega arith), (λ z. omega arith)),
      (
        ((λ z. omega arith), (λ z. omega arith)),
        (
          ((λ z. omega arith), (λ z. omega arith)),
          (
            ((λ z. omega arith), (λ z. omega arith)),
            (((λ z. omega arith), (λ z. omega arith)), tt),
          ),
        ),
      ),
    ),
  ),
)

All-nonzero : (s : List ℕ) → All (λ c. (c ≢ 0) × (c ≢ b'%')) s → All (λ c. c ≢ 0) s
All-nonzero [] all = tt
All-nonzero (c ∷ s) ((here, other), all) = (here, All-nonzero s all)

-- If the format is one in which there is something to print, with an argument of its kind for each
-- conversion, and its text is not empty and holds no zero byte, the first panic sends out "panic: " and
-- that text, cut to 255 bytes by the one buffer and to 127 by the other; one round for each conversion
-- and one more, and at least two, are enough. A panic that follows sends out nothing, whatever its
-- format and the buffers are.
pub panic_lem :
    (fuel : ℕ) (static_buf buf buf' : List ℕ) (f : Format) (rest : List ℕ)
    → length static_buf ≡ 256
    → length buf ≡ 128
    → length buf' ≡ 128
    → IsFormat f
    → IsPrinting f
    → conversions f ≤ suc fuel
    → All (λ c. c ≢ 0) (render f)
    → render f ≢ []
    → (panic (suc (suc fuel)) static_buf buf buf' 0 (encode f rest) (arguments f)
        ≡ done (1, panic_text ++ take 127 (take 255 (render f))))
      × ((fuel' : ℕ) (b1 b2 b3 fmt : List ℕ) (args : List Arg)
          → panic fuel' b1 b2 b3 1 fmt args ≡ done (1, []))
unfolding panic mu_panic_preamble
panic_lem fuel static_buf buf buf' f rest static_size size size' valid printing enough chars
      some_text =
    let (ret, run, counts) =
      vsnprintf_lem (suc fuel) 255 static_buf f rest (omega arith) (omega arith) (omega arith) valid
        printing enough in
    let cut = take 255 (render f) in
    let post = drop (suc (length cut)) static_buf in
    let cut_chars = All-take 255 (render f) chars in
    let first =
      printf_lem (suc fuel) buf (last panic_text) [] size panic_text-plain tt (omega arith)
        (All-nonzero panic_text panic_text-plain) (λ e. absurd (omega (arith, ap length e))) in
    let all : cut ++ [] ≡ cut = append-nil cut in
    let second =
      printf_lem (suc fuel) buf' (next [] (string cut post) (last [])) [] size' (tt, cut_chars, tt)
        tt (omega arith) (subst (λ t. All (λ c. c ≢ 0) t) (sym all) cut_chars)
        (λ e. take-nonempty 254 (render f) some_text (sym all ∙ e)) in
    (
      rw (run, first, second) (ap (λ t. done (1, panic_text ++ take 127 t)) all),
      λ fuel' b1 b2 b3 fmt args. refl,
    )
