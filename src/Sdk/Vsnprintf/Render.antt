-- ===== src/Sdk/Vsnprintf/Render.antt =====
-- `vsnprintf` prints the text that its format stands for, cut to the buffer.
use native.Mathlib.Decide.{dec_lt}
use open_modality.Base.{
  ℕ, zero, suc, ◌+◌, ◌^◌, ◌<◌, ◌≤◌, ◌≡◌, ◌≢◌, ◌⊎◌, inl, inr, ◌∙◌, refl, sym, ap, List, [], ◌∷◌,
  ◌++◌, arith,
}
use open_modality.Base.Lists.{
  length, take, drop, replicate, All, length-replicate, length-append, length-take,
}
use open_modality.Base.Run.{Run, done}
use open_modality.Base.Words.{u32}
use open_modality.Sdk.Vsnprintf.{Arg, Vars, format_loop, vsnprintf}
use open_modality.Sdk.Vsnprintf.Buffer.{
  written, grown, grown-grown, grown-nil, length-grown, grown_full, grown_room, mark_behind,
  text_loop_lem,
}
use open_modality.Sdk.Vsnprintf.Format.{
  Conversion, spec, text, IsConversion, Format, last, next, encode, arguments, render, IsFormat,
  conversions,
}
use open_modality.Sdk.Vsnprintf.Loop.{
  vars, directive_lem, format_loop-full, format_loop-stop, format_loop-next,
}

-- The mark once a format is printed: nothing was printed for an empty one alone.
abbrev ended : ℕ → Format → ℕ
ended mark (last lit) = mark_behind mark lit
ended mark (next lit c f) = 0

ended-zero : (f : Format) → ended 0 f ≡ 0
ended-zero (last []) = refl
ended-zero (last (c ∷ lit)) = refl
ended-zero (next lit c f) = refl

-- Text that fills the buffer was printed.
mark_cut :
    (n : ℕ) (k : List ℕ) (mark : ℕ) (lit : List ℕ)
    → length k < n
    → length (grown n k lit) ≡ n
    → mark_behind mark lit ≡ 0
mark_cut n k mark [] h e = absurd (omega (arith, ap length (grown-nil n k (omega arith))))
mark_cut n k mark (c ∷ lit) h e = refl

module _ (n : ℕ) (buf : List ℕ) (room : n < length buf) (small : n < 2 ^ 63) where
  -- A call of the loop that prints what is left of a format.
  record Rendered (run : Run (Vars × ℕ)) (k : List ℕ) (mark : ℕ) (f : Format) : Type 0 where
    v : Vars
    ret : ℕ
    out : run ≡ done (v, ret)
    prints : v.out ≡ written buf (grown n k (render f)) (ended mark f)
    counts : length k + length (render f) < n → ret ≡ u32 (length k + length (render f))

  full-Rendered :
      (fuel : ℕ) (fmt : List ℕ) (k : List ℕ) (mark : ℕ) (args : List Arg) (num_buf : List ℕ)
      (f : Format)
      → length k ≡ n
      → mark ≡ 0
      → Rendered
          (format_loop (suc fuel) (suc n) fmt (vars n buf room small k mark args num_buf))
          k
          mark
          f
  full-Rendered fuel fmt k mark args num_buf f e z = record {
    v = vars n buf room small k mark args num_buf;
    ret = 0;
    out = format_loop-full n buf room small fuel fmt k mark args num_buf (omega arith);
    prints =
        ap (written buf k) (z ∙ sym (ended-zero f) ∙ ap (λ m. ended m f) (sym z))
        ∙ ap (λ l. written buf l (ended mark f)) (sym (grown_full n k (render f) e));
    counts = λ less. absurd (omega arith);
  }

  module _ (k : List ℕ) (mark : ℕ) (h : length k < n) (lit : List ℕ)
      (plain : All (λ c. (c ≢ 0) × (c ≢ b'%')) lit) where
    last-Rendered :
        (fuel : ℕ) (rest num_buf : List ℕ)
        → Rendered
            (format_loop
              (suc fuel)
              (suc n)
              (lit ++ 0 ∷ rest)
              (vars n buf room small k mark [] num_buf))
            k
            mark
            (last lit)
    last-Rendered fuel rest num_buf =
        let k1 = grown n k lit in
        let read =
          text_loop_lem n buf room small lit k mark 0 rest (omega arith) plain (inl refl) in
        record {
          v = vars n buf room small k1 (mark_behind mark lit) [] num_buf;
          ret = u32 (length k1);
          out =
              format_loop-stop n buf room small fuel (lit ++ 0 ∷ rest) rest k k1 mark
                (mark_behind mark lit) 0 [] num_buf h read (inl refl);
          prints = refl;
          counts =
              λ less. ap u32 (ap length (grown_room n k lit (omega arith)) ∙ length-append k lit);
        }

    cut-Rendered :
        (fuel : ℕ) (fmt num_buf : List ℕ) (args : List Arg) (c : Conversion) (f : Format)
        → length (grown n k lit) ≡ n
        → Rendered
            (format_loop
              (suc fuel)
              (suc n)
              (lit ++ b'%' ∷ fmt)
              (vars n buf room small k mark args num_buf))
            k
            mark
            (next lit c f)
    cut-Rendered fuel fmt num_buf args c f e =
        let k1 = grown n k lit in
        let read =
          text_loop_lem n buf room small lit k mark b'%' fmt (omega arith) plain (inr refl) in
        record {
          v = vars n buf room small k1 (mark_behind mark lit) args num_buf;
          ret = u32 (length k1);
          out =
              format_loop-stop n buf room small fuel (lit ++ b'%' ∷ fmt) fmt k k1 mark
                (mark_behind mark lit) b'%' args num_buf h read (inr e);
          prints =
              ap (written buf k1) (mark_cut n k mark lit h e)
              ∙ ap (λ l. written buf l 0)
                  (sym (grown_full n k1 (text c ++ render f) e)
                    ∙ grown-grown n k lit (text c ++ render f));
          counts = λ less. absurd (
              omega (
                arith,
                length-take n (k ++ lit),
                length-append k lit,
                length-append lit (text c ++ render f),
              ));
        }

    next-Rendered :
        (fuel : ℕ) (rest num_buf : List ℕ) (c : Conversion) (f : Format)
        → IsConversion c
        → length num_buf ≡ 256
        → length (grown n k lit) < n
        → ((nb : List ℕ)
            → length nb ≡ 256
            → Rendered
                (format_loop fuel
                  (suc n)
                  (encode f rest)
                  (vars n buf room small (grown n (grown n k lit) (text c)) 0 (arguments f) nb))
                (grown n (grown n k lit) (text c))
                0
                f)
        → Rendered
            (format_loop
              (suc fuel)
              (suc n)
              (encode (next lit c f) rest)
              (vars n buf room small k mark (arguments (next lit c f)) num_buf))
            k
            mark
            (next lit c f)
    next-Rendered fuel rest num_buf c f valid size inside continue =
        let k1 = grown n k lit in
        let k2 = grown n k1 (text c) in
        let fmt1 = spec c ++ encode f rest in
        let read =
          text_loop_lem n buf room small lit k mark b'%' fmt1 (omega arith) plain (inr refl) in
        let (nb, whole, run) =
          directive_lem n buf room small k1 (mark_behind mark lit) (omega arith) c (encode f rest)
            (arguments f) num_buf size valid in
        let r = continue nb whole in
        record {
          v = r.v;
          ret = r.ret;
          out =
              format_loop-next n buf room small fuel (lit ++ b'%' ∷ fmt1) fmt1 k k1 mark
                (mark_behind mark lit) b'%' (arguments (next lit c f)) num_buf h read _ _
                (λ z. omega arith) inside run
              ∙ r.out;
          prints =
              r.prints
              ∙ ap (written buf (grown n k2 (render f))) (ended-zero f)
              ∙ ap (λ l. written buf l 0)
                  (grown-grown n k1 (text c) (render f) ∙ grown-grown n k lit (text c ++ render f));
          counts = λ less.
              let size1 : length k1 ≡ length k + length lit = omega (
                arith,
                length-take n (k ++ lit),
                length-append k lit,
                length-append lit (text c ++ render f),
              ) in
              let size2 : length k2 ≡ length k1 + length (text c) = omega (
                arith,
                length-take n (k1 ++ text c),
                length-append k1 (text c),
                length-append lit (text c ++ render f),
                length-append (text c) (render f),
              ) in
              let all = length-append lit (text c ++ render f) in
              let behind = length-append (text c) (render f) in
              r.counts (omega arith) ∙ ap u32 (omega arith);
        }

  mark_full : (k : List ℕ) (mark : ℕ) → ¬ (length k < n) → (mark ≡ 0) ⊎ (length k < n) → mark ≡ 0
  mark_full k mark q marked = elim marked [ inl z ↦ z | inr less ↦ absurd (q less) ]

  -- One round for each conversion and one more print the whole format.
  format_loop_lem :
      (f : Format) (fuel : ℕ) (k : List ℕ) (mark : ℕ) (rest num_buf : List ℕ)
      → length k ≤ n
      → (mark ≡ 0) ⊎ (length k < n)
      → conversions f ≤ fuel
      → IsFormat f
      → length num_buf ≡ 256
      → Rendered
          (format_loop
            (suc fuel)
            (suc n)
            (encode f rest)
            (vars n buf room small k mark (arguments f) num_buf))
          k
          mark
          f
  format_loop_lem (last lit) fuel k mark rest num_buf h marked enough plain size =
      elim (dec_lt (length k) n) [
        | yes p ↦ last-Rendered k mark p lit plain fuel rest num_buf
        | no q ↦
            full-Rendered fuel (encode (last lit) rest) k mark [] num_buf (last lit) (omega arith)
              (mark_full k mark q marked)
      ]
  format_loop_lem (next lit c f) zero k mark rest num_buf h marked enough valid size =
      absurd (omega arith)
  format_loop_lem (next lit c f) (suc fuel) k mark rest num_buf h marked enough
        (plain, valid, valid_rest) size =
      elim (dec_lt (length k) n) [
        | no q ↦
            full-Rendered (suc fuel) (encode (next lit c f) rest) k mark (arguments (next lit c f))
              num_buf (next lit c f) (omega arith) (mark_full k mark q marked)
        | yes p ↦
            let bound = length-grown n k lit in
            elim (dec_lt (length (grown n k lit)) n) [
              | no full ↦
                  cut-Rendered k mark p lit plain (suc fuel) (spec c ++ encode f rest) num_buf
                    (arguments (next lit c f)) c f (omega arith)
              | yes inside ↦
                  next-Rendered k mark p lit plain (suc fuel) rest num_buf c f valid size inside
                    (λ nb whole.
                      format_loop_lem f fuel (grown n (grown n k lit) (text c)) 0 rest nb
                        (length-grown n (grown n k lit) (text c)) (inl refl) (omega arith)
                        valid_rest whole)
            ]
      ]

-- A format in which there is something to print.
abbrev pub IsPrinting : Format → Type 0
IsPrinting (last []) = ⊥
IsPrinting (last (c ∷ lit)) = Unit
IsPrinting (next lit c f) = Unit

ended-IsPrinting : (mark : ℕ) (f : Format) → IsPrinting f → ended mark f ≡ 0
ended-IsPrinting mark (last []) h = elim h [ ]
ended-IsPrinting mark (last (c ∷ lit)) h = refl
ended-IsPrinting mark (next lit c f) h = refl

-- With room for more than the terminator, a size of at most 2 ^ 63, and a format in which there is
-- something to print, with an argument of its kind for each conversion (the lowest 64-bit number for a
-- "%d" and a zero byte inside a string excepted), `vsnprintf` ends, with one round for each conversion
-- and one more. It leaves in the buffer the text that the format stands for, cut to one less than the
-- size, and a terminator; the rest of the buffer is as before. If the text is shorter than the size by
-- two or more, what it returns is the `int` with the low 32 bits of its length.
pub vsnprintf_lem :
    (fuel n : ℕ) (buf : List ℕ) (f : Format) (rest : List ℕ)
    → 0 < n
    → n < length buf
    → n < 2 ^ 63
    → IsFormat f
    → IsPrinting f
    → conversions f ≤ fuel
    → (ret : ℕ) × (vsnprintf (suc fuel) buf (suc n) (encode f rest) (arguments f)
        ≡ done (take n (render f) ++ 0 ∷ drop (suc (length (take n (render f)))) buf, ret))
      × (length (render f) < n → ret ≡ u32 (length (render f)))
unfolding vsnprintf
vsnprintf_lem fuel n [] f rest some_room room small valid printing enough = absurd (omega arith)
vsnprintf_lem fuel n (x ∷ buf) f rest some_room room small valid printing enough =
    let r =
      format_loop_lem n (x ∷ buf) room small f fuel [] x rest (replicate 256 0) (omega arith)
        (inr (omega arith)) enough valid (length-replicate {A = ℕ} 256 0) in
    (
      r.ret,
      rw r.out (
          ap (λ o. done (o.buf, r.ret))
            (r.prints
              ∙ ap (written (x ∷ buf) (take n (render f))) (ended-IsPrinting x f printing))),
      λ less. r.counts (omega arith) ∙ ap u32 (omega arith),
    )
