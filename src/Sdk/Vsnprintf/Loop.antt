-- ===== src/Sdk/Vsnprintf/Loop.antt =====
-- One conversion with its argument, and one round of the loop over the format.
use open_modality.Base.{
  ℕ, suc, ◌-◌, ◌^◌, ◌<◌, ◌≤◌, ◌≡◌, ◌≢◌, ◌⊎◌, ◌∙◌, refl, ap, List, [], ◌∷◌, ◌++◌, append_assoc,
  arith,
}
use open_modality.Base.Lists.{length, replicate}
use open_modality.Base.Run.{done}
use open_modality.Base.Words.{u32, sub64}
use open_modality.Sdk.Memory.{load}
use open_modality.Sdk.Vsnprintf.{
  Arg, Vars, text_loop, read_width, conversion, directive, format_loop,
}
use open_modality.Sdk.Vsnprintf.Buffer.{written, grown, within, beyond}
use open_modality.Sdk.Vsnprintf.Format.{
  Conversion, percent, char, signed, padded, hex, address, string, spec, taken, width, text,
  IsConversion,
}
use open_modality.Sdk.Itoa.Print.{decimal}
use open_modality.Sdk.Vsnprintf.Directive.{
  read_width-digits, print_d_lem, print_x_lem, print_p_lem, print_s_lem, print_char_lem,
  print_percent_lem,
}

directive-width :
    (size : ℕ) (fmt : List ℕ) (v : Vars) (c pad : ℕ) (rest : List ℕ) (v' : Vars)
    → read_width v.pad_width fmt ≡ done (pad, c ∷ rest)
    → conversion c size (record v { pad_width = pad }) ≡ done v'
    → directive size fmt v ≡ done (v', rest)
unfolding directive load
directive-width size fmt v c pad rest v' read run = rw (read, run) refl

module _ (n : ℕ) (buf : List ℕ) (room : n < length buf) (small : n < 2 ^ 63) where
  pub directive_lem :
      (k : List ℕ) (mark : ℕ) (h : length k ≤ n) (c : Conversion) (fmt : List ℕ) (args : List Arg)
      (num_buf : List ℕ)
      → length num_buf ≡ 256
      → IsConversion c
      → (nb : List ℕ) × (length nb ≡ 256)
        × (directive (suc n) (spec c ++ fmt) (record {
          out = written buf k mark;
          args = taken c ++ args;
          pad_width = 0;
          num_buf = num_buf;
        })
            ≡ done (
              record {
                out = written buf (grown n k (text c)) 0;
                args = args;
                pad_width = 0;
                num_buf = nb;
              },
              fmt,
            ))
  unfolding directive read_width conversion load
  directive_lem k mark h percent fmt args num_buf size ok_c =
      (num_buf, size, rw (print_percent_lem n buf room small k mark h args num_buf size) refl)
  directive_lem k mark h (char c) fmt args num_buf size ok_c =
      (num_buf, size, rw (print_char_lem n buf room small k mark h args num_buf size c) refl)
  directive_lem k mark h (signed v) fmt args num_buf size (bound, not_lowest) =
      let (nb, whole, run) =
        print_d_lem n buf room small k mark h args num_buf size v 0 bound not_lowest in
      let zero_pad : 0 - length (decimal v) ≡ 0 = omega arith in
      (
        nb,
        whole,
        rw run (
            ap
              (λ r. done (
                record {
                  out = written buf (grown n k (replicate r b'0' ++ decimal v)) 0;
                  args = args;
                  pad_width = 0;
                  num_buf = nb;
                },
                fmt,
              ))
              zero_pad),
      )
  directive_lem k mark h (padded digits v) fmt args num_buf size (bound, not_lowest, all) =
      let (nb, whole, run) =
        print_d_lem n buf room small k mark h args num_buf size v (width digits) bound not_lowest in
      let read =
        ap (λ l. read_width 0 (b'0' ∷ l)) (append_assoc digits (b'd' ∷ []) fmt)
        ∙ read_width-digits digits fmt all in
      (
        nb,
        whole,
        directive-width (suc n) (spec (padded digits v) ++ fmt) _ b'd' (width digits) fmt _ read
            run,
      )
  directive_lem k mark h (hex v) fmt args num_buf size bound =
      let (nb, whole, run) = print_x_lem n buf room small k mark h args num_buf size v bound in
      (nb, whole, rw run refl)
  directive_lem k mark h (address v) fmt args num_buf size bound =
      let (nb, whole, run) = print_p_lem n buf room small k mark h args num_buf size v bound in
      (nb, whole, rw run refl)
  directive_lem k mark h (string s rest) fmt args num_buf size chars = (
    num_buf,
    size,
    rw (print_s_lem n buf room small k mark h args num_buf size s rest chars) refl,
  )

  abbrev pub vars : List ℕ → ℕ → List Arg → List ℕ → Vars
  vars k mark args num_buf = record {
    out = written buf k mark;
    args = args;
    pad_width = 0;
    num_buf = num_buf;
  }

  pub format_loop-full :
      (fuel : ℕ) (fmt : List ℕ) (k : List ℕ) (mark : ℕ) (args : List Arg) (num_buf : List ℕ)
      → n ≤ length k
      → format_loop (suc fuel) (suc n) fmt (vars k mark args num_buf)
        ≡ done (vars k mark args num_buf, 0)
  unfolding format_loop
  format_loop-full fuel fmt k mark args num_buf h =
      let test = beyond n buf room small (length k) h in ground arith

  -- What a round of the loop does at the end of the format, and at a conversion.
  module _ (fuel : ℕ) (fmt fmt1 : List ℕ) (k k1 : List ℕ) (mark mark1 c : ℕ) (args : List Arg)
      (num_buf : List ℕ) (h : length k < n)
      (read : text_loop (suc n) (written buf k mark) fmt
        ≡ done (written buf k1 mark1, c ∷ fmt1)) where
    pub format_loop-stop :
        (c ≡ 0) ⊎ (length k1 ≡ n)
        → format_loop (suc fuel) (suc n) fmt (vars k mark args num_buf)
          ≡ done (vars k1 mark1 args num_buf, u32 (length k1))
    unfolding format_loop load
    format_loop-stop over =
        let test = within n buf room small (length k) h in
        let size : sub64 (suc n) 1 ≡ n = omega arith in ground arith

    pub format_loop-next :
        (v : Vars) (fmt2 : List ℕ)
        → c ≢ 0
        → length k1 < n
        → directive (suc n) fmt1 (vars k1 mark1 args num_buf) ≡ done (v, fmt2)
        → format_loop (suc fuel) (suc n) fmt (vars k mark args num_buf)
          ≡ format_loop fuel (suc n) fmt2 v
    unfolding format_loop load
    format_loop-next v fmt2 nz inside run =
        let test = within n buf room small (length k) h in
        let size : sub64 (suc n) 1 ≡ n = omega arith in ground arith
