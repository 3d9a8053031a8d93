-- ===== src/Sdk/Vsnprintf/Directive.antt =====
-- One conversion prints its text.
use open_modality.Base.{
  ℕ, zero, suc, ◌+◌, ◌-◌, ◌*◌, ◌%◌, ◌^◌, ◌<◌, ◌≤◌, ◌≡◌, ◌≢◌, ◌∙◌, refl, sym, ap, true, false, List,
  [], ◌∷◌, ◌++◌, arith,
}
use open_modality.Base.Tests.{ltb, leb}
use open_modality.Base.Lists.{length, replicate, All}
use open_modality.Base.Run.{Run, done, ◌>>=◌}
use open_modality.Base.Words.{u8, sub64}
use open_modality.Sdk.Str.{strlen}
use open_modality.Sdk.Str.Laws.{strlen_lem, c_str-terminated}
use open_modality.Sdk.Itoa.{itoa}
use open_modality.Sdk.Itoa.Decimal.{read_digits}
use open_modality.Sdk.Itoa.Print.{Leaves, decimal, decimal-All, itoa-Leaves}
use open_modality.Sdk.Itoa.HexDigits.{hex_digits, hex_text, hex_digits-All, length-hex_digits}
use open_modality.Sdk.Itoa.HexText.{itoa_hex-Leaves}
use open_modality.Sdk.Vsnprintf.{
  Arg, number, pointer, Out, Vars, zeros_loop, width_loop, read_width, convert_number, pad_number,
  print_decimal, print_pointer, print_hex, take_number, take_pointer, print_char, print_percent,
  print_d, print_p, print_x, print_s,
}
use open_modality.Sdk.Vsnprintf.Buffer.{
  written, grown, grown-grown, grown-nil, length-grown, printc_lem, printstr_lem, zeros_loop_lem,
}
use open_modality.Sdk.Vsnprintf.Format.{address, width, text}

-- The width of a padded number.
read_digits-mod :
    (digits : List ℕ) (a b : ℕ)
    → a % 2 ^ 8 ≡ b % 2 ^ 8
    → read_digits a digits % 2 ^ 8 ≡ read_digits b digits % 2 ^ 8
read_digits-mod [] a b e = e
read_digits-mod (c ∷ digits) a b e =
    read_digits-mod digits (a * 10 + (c - b'0')) (b * 10 + (c - b'0')) (omega arith)

width_loop_lem :
    (digits : List ℕ) (pad c : ℕ) (fmt : List ℕ)
    → pad < 2 ^ 8
    → b'9' < c
    → All (λ d. (b'0' ≤ d) × (d ≤ b'9')) digits
    → width_loop pad (digits ++ c ∷ fmt) ≡ done (read_digits pad digits % 2 ^ 8, c ∷ fmt)
unfolding width_loop
width_loop_lem [] pad c fmt small other all =
    let same : pad % 2 ^ 8 ≡ pad = omega arith in ground arith
width_loop_lem (d ∷ digits) pad c fmt small other ((low, high), all) =
    let next = pad * 10 + (d - b'0') in
    let ih = width_loop_lem digits (u8 next) c fmt (omega arith) other all in
    let same = read_digits-mod digits (u8 next) next (omega arith) in
    let from : leb b'0' d ≡ true = ground arith in
    let to : leb d b'9' ≡ true = ground arith in ground arith

read_width-none : (c : ℕ) (fmt : List ℕ) → c ≢ b'0' → read_width 0 (c ∷ fmt) ≡ done (0, c ∷ fmt)
unfolding read_width
read_width-none c fmt ne = ground arith

pub read_width-digits :
    (digits : List ℕ) (fmt : List ℕ)
    → All (λ d. (b'0' ≤ d) × (d ≤ b'9')) digits
    → read_width 0 (b'0' ∷ (digits ++ b'd' ∷ fmt)) ≡ done (width digits, b'd' ∷ fmt)
unfolding read_width
read_width-digits digits fmt all = width_loop_lem digits 0 b'd' fmt (omega arith) (omega arith) all

-- `itoa` into the buffer for numbers.
convert_number-Leaves :
    (fuel num base : ℕ) (num_buf t : List ℕ) (l : Leaves (itoa fuel num num_buf base) num_buf t)
    → convert_number fuel num num_buf base ≡ done (t ++ 0 ∷ l.post)
unfolding convert_number
convert_number-Leaves fuel num base num_buf t l = rw l.out refl

strlen-text :
    (t post : List ℕ)
    → All (λ c. c ≢ 0) t
    → length (t ++ 0 ∷ post) ≡ 256
    → strlen (t ++ 0 ∷ post) ≡ done (length t)
strlen-text t post chars size =
    strlen_lem (t ++ 0 ∷ post) (omega arith) ∙ rw (c_str-terminated t post chars) refl

module _ (n : ℕ) (buf : List ℕ) (room : n < length buf) (small : n < 2 ^ 63) (k : List ℕ) (mark : ℕ)
    (h : length k ≤ n) where
  pad_number_lem :
      (pad : ℕ) (t post : List ℕ)
      → All (λ c. c ≢ 0) t
      → length (t ++ 0 ∷ post) ≡ 256
      → (mark' : ℕ) × (pad_number (suc n) (written buf k mark) pad (t ++ 0 ∷ post)
          ≡ done (written buf (grown n k (replicate (pad - length t) b'0')) mark'))
  unfolding pad_number
  pad_number_lem zero t post chars size =
      let none_left : 0 - length t ≡ 0 = omega arith in
      (
        mark,
        ap (λ l. done (written buf l mark)) (sym (grown-nil n k h))
            ∙ ap (λ r. done (written buf (grown n k (replicate r b'0')) mark)) (sym none_left),
      )
  pad_number_lem (suc pad) t post chars size =
      let (mark', run) = zeros_loop_lem n buf room small (suc pad - length t) k mark h in
      let wide : ltb 0 (suc pad) ≡ true = ground arith in
      (
        mark',
        ap
              (λ b. elim b as (λ x. Run Out) [
                | false ↦ done (written buf k mark)
                | true ↦ strlen (t ++ 0 ∷ post) >>= λ num_len.
                    zeros_loop (suc pad - num_len) (suc n) (written buf k mark)
              ])
              wide
            ∙ ap (λ r. r >>= λ num_len. zeros_loop (suc pad - num_len) (suc n) (written buf k mark))
                (strlen-text t post chars size)
            ∙ run,
      )

  print_decimal_lem :
      (pad : ℕ) (t post : List ℕ)
      → All (λ c. c ≢ 0) t
      → length (t ++ 0 ∷ post) ≡ 256
      → print_decimal (suc n) (written buf k mark) pad (t ++ 0 ∷ post)
        ≡ done (written buf (grown n k (replicate (pad - length t) b'0' ++ t)) 0)
  unfolding print_decimal
  print_decimal_lem pad t post chars size =
      let zeros : List ℕ = replicate (pad - length t) b'0' in
      let (mark', run) = pad_number_lem pad t post chars size in
      let rest =
        printstr_lem n buf room small t (grown n k zeros) mark' post (length-grown n k zeros)
          chars in
      rw (run, rest) (ap (λ l. done (written buf l 0)) (grown-grown n k zeros t))

  print_hex_lem :
      (t post : List ℕ)
      → All (λ c. c ≢ 0) t
      → length (b'0' ∷ b'x' ∷ (t ++ 0 ∷ post)) ≡ 256
      → print_hex (suc n) (written buf k mark) (b'0' ∷ b'x' ∷ (t ++ 0 ∷ post))
        ≡ done (written buf (grown n k t) 0)
  unfolding print_hex
  print_hex_lem t post chars size =
      rw (strlen-text (b'0' ∷ b'x' ∷ t) post ((λ z. omega arith), ((λ z. omega arith), chars)) size)
        (printstr_lem n buf room small t k mark post h chars)

  print_pointer_lem :
      (t post : List ℕ)
      → All (λ c. c ≢ 0) t
      → length t ≤ 16
      → length (b'0' ∷ b'x' ∷ (t ++ 0 ∷ post)) ≡ 256
      → print_pointer (suc n) (written buf k mark) (b'0' ∷ b'x' ∷ (t ++ 0 ∷ post))
        ≡ done (written buf (grown n k (b'0' ∷ b'x' ∷ (replicate (16 - length t) b'0' ++ t))) 0)
  unfolding print_pointer
  print_pointer_lem t post chars short size =
      let k1 = grown n k (b'0' ∷ []) in
      let k2 = grown n k1 (b'x' ∷ []) in
      let zeros : List ℕ = replicate (16 - length t) b'0' in
      let left : sub64 18 (length (b'0' ∷ b'x' ∷ t)) ≡ 16 - length t = omega arith in
      let first = printc_lem n buf room small k mark b'0' h in
      let second = printc_lem n buf room small k1 0 b'x' (length-grown n k (b'0' ∷ [])) in
      let (mark', run) =
        zeros_loop_lem n buf room small (16 - length t) k2 0 (length-grown n k1 (b'x' ∷ [])) in
      let rest =
        printstr_lem n buf room small t (grown n k2 zeros) mark' post (length-grown n k2 zeros)
          chars in
      let len =
        strlen-text (b'0' ∷ b'x' ∷ t) post ((λ z. omega arith), ((λ z. omega arith), chars)) size in
      rw (len, first, second, left, run, rest)
        (ap (λ l. done (written buf l 0))
          (grown-grown n k2 zeros t
            ∙ grown-grown n k1 (b'x' ∷ []) (zeros ++ t)
            ∙ grown-grown n k (b'0' ∷ []) (b'x' ∷ (zeros ++ t))))

  -- The variables after a conversion.
  abbrev pub after : List ℕ → List Arg → List ℕ → Vars
  after t args num_buf = record {
    out = written buf (grown n k t) 0;
    args = args;
    pad_width = 0;
    num_buf = num_buf;
  }

  module _ (args : List Arg) (num_buf : List ℕ) (size : length num_buf ≡ 256) where
    abbrev pub before : List Arg → ℕ → Vars
    before more pad = record {
      out = written buf k mark;
      args = more ++ args;
      pad_width = pad;
      num_buf = num_buf;
    }

    pub print_d_lem :
        (v pad : ℕ)
        → v < 2 ^ 64
        → v ≢ 2 ^ 63
        → (nb : List ℕ) × (length nb ≡ 256)
          × (print_d (suc n) (before (number v ∷ []) pad)
              ≡ done (after (replicate (pad - length (decimal v)) b'0' ++ decimal v) args nb))
    unfolding print_d take_number
    print_d_lem v pad bound not_lowest =
        let l = itoa-Leaves v bound not_lowest num_buf (omega arith) in
        let whole : length (decimal v ++ 0 ∷ l.post) ≡ 256 = l.whole ∙ size in
        let printed =
          print_decimal_lem pad (decimal v) l.post (decimal-All v bound not_lowest) whole in
        (
          decimal v ++ 0 ∷ l.post,
          whole,
          rw (convert_number-Leaves 20 v 10 num_buf (decimal v) l, printed) refl,
        )

    pub print_x_lem :
        (v : ℕ)
        → v < 2 ^ 64
        → (nb : List ℕ) × (length nb ≡ 256)
          × (print_x (suc n) (before (number v ∷ []) 0) ≡ done (after (hex_digits v) args nb))
    unfolding print_x take_number
    print_x_lem v bound =
        let l = itoa_hex-Leaves v num_buf bound (omega arith) in
        let whole : length (hex_text v ++ 0 ∷ l.post) ≡ 256 = l.whole ∙ size in
        let printed = print_hex_lem (hex_digits v) l.post (hex_digits-All v) whole in
        (
          hex_text v ++ 0 ∷ l.post,
          whole,
          rw (convert_number-Leaves 17 v 16 num_buf (hex_text v) l, printed) refl,
        )

    pub print_p_lem :
        (v : ℕ)
        → v < 2 ^ 64
        → (nb : List ℕ) × (length nb ≡ 256)
          × (print_p (suc n) (before (number v ∷ []) 0) ≡ done (after (text (address v)) args nb))
    unfolding print_p take_number
    print_p_lem v bound =
        let l = itoa_hex-Leaves v num_buf bound (omega arith) in
        let whole : length (hex_text v ++ 0 ∷ l.post) ≡ 256 = l.whole ∙ size in
        let printed =
          print_pointer_lem (hex_digits v) l.post (hex_digits-All v) (length-hex_digits v) whole in
        (
          hex_text v ++ 0 ∷ l.post,
          whole,
          rw (convert_number-Leaves 17 v 16 num_buf (hex_text v) l, printed) refl,
        )

    pub print_s_lem :
        (s rest : List ℕ)
        → All (λ c. c ≢ 0) s
        → print_s (suc n) (before (pointer (s ++ 0 ∷ rest) ∷ []) 0) ≡ done (after s args num_buf)
    unfolding print_s take_pointer
    print_s_lem s rest chars = rw (printstr_lem n buf room small s k mark rest h chars) refl

    pub print_char_lem :
        (c : ℕ)
        → print_char (suc n) (before (number c ∷ []) 0) ≡ done (after (u8 c ∷ []) args num_buf)
    unfolding print_char take_number
    print_char_lem c = rw (printc_lem n buf room small k mark (u8 c) h) refl

    pub print_percent_lem :
        print_percent (suc n) (before [] 0) ≡ done (after (b'%' ∷ []) args num_buf)
    unfolding print_percent
    print_percent_lem = rw (printc_lem n buf room small k mark b'%' h) refl
