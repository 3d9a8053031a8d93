-- ===== src/Sdk/Vsnprintf.antt =====
-- `vsnprintf` of sdk/string/vsnprintf.c. The arguments are a list: what `va_arg` takes as a number
-- is its bit pattern of 64 bits, and what it takes as a pointer the bytes from there to the end of
-- the object; to take an argument of the other kind, or past the last, is a fault. Characters are
-- bytes. The loop over the format has fuel.
pub mod Buffer
pub mod Directive
pub mod Format
pub mod Loop
pub mod Overread
pub mod Render
use open_modality.Base.{
  ℕ, zero, suc, ◌+◌, ◌-◌, ◌*◌, ◌%◌, ◌^◌, Bool, true, false, not, ◌&&◌, ◌||◌, Option, none, some,
  List, [], ◌∷◌,
}
use open_modality.Base.Tests.{◌==◌, ltb, leb, if◌then◌else◌}
use open_modality.Base.Lists.{drop, replicate}
use open_modality.Base.Run.{Run, done, fault, out_of_fuel, ◌>>=◌}
use open_modality.Base.Words.{u8, u32, sub64}
use open_modality.Sdk.Memory.{load, store}
use open_modality.Sdk.Str.{strlen}
use open_modality.Sdk.Itoa.{itoa}

pub data Arg : Type 0 where
  number : ℕ → Arg
  pointer : List ℕ → Arg

-- The buffer and `off`.
pub record Out : Type 0 where
  pub buf : List ℕ
  pub off : ℕ

unfoldable pub printc : ℕ → Out → ℕ → Run Out
printc size o c = elim (ltb o.off (sub64 size 1)) [
  | true ↦ do
    buf1 ← store o.buf o.off c
    buf2 ← store buf1 (o.off + 1) 0
    done (record { buf = buf2; off = o.off + 1 })
  | false ↦ do buf' ← store o.buf o.off 0; done (record { buf = buf'; off = o.off })
]

-- `while (*off < size - 1 && *s != '\0')`
unfoldable pub printstr_loop : ℕ → Out → List ℕ → Run Out
printstr_loop size o [] = if ltb o.off (sub64 size 1) then fault else done o
printstr_loop size o (c ∷ s) = elim (ltb o.off (sub64 size 1) && not (c == 0)) [
  | false ↦ done o
  | true ↦ do
    buf' ← store o.buf o.off c
    printstr_loop size (record { buf = buf'; off = o.off + 1 }) s
]

unfoldable pub printstr : ℕ → Out → List ℕ → Run Out
printstr size o s = do
  o' ← printstr_loop size o s
  buf' ← store o'.buf o'.off 0
  done (record { buf = buf'; off = o'.off })

-- The loops that print zeros, with the rounds that are left.
unfoldable pub zeros_loop : ℕ → ℕ → Out → Run Out
zeros_loop zero size o = done o
zeros_loop (suc rounds) size o = do o' ← printc size o b'0'; zeros_loop rounds size o'

-- `while (*fmt && *fmt != '%')`: what is left of the format begins with one of the two.
unfoldable pub text_loop : ℕ → Out → List ℕ → Run (Out × List ℕ)
text_loop size o [] = fault
text_loop size o (c ∷ fmt) = elim (c == 0 || c == b'%') [
  | true ↦ done (o, c ∷ fmt)
  | false ↦ do o' ← printc size o c; text_loop size o' fmt
]

-- The digits of "%0N".
unfoldable pub width_loop : ℕ → List ℕ → Run (ℕ × List ℕ)
width_loop pad_width [] = fault
width_loop pad_width (c ∷ fmt) = elim (leb b'0' c && leb c b'9') [
  | false ↦ done (pad_width, c ∷ fmt)
  | true ↦ width_loop (u8 (pad_width * 10 + (c - b'0'))) fmt
]

unfoldable pub read_width : ℕ → List ℕ → Run (ℕ × List ℕ)
read_width pad_width [] = fault
read_width pad_width (c ∷ fmt) =
    if c == b'0' then width_loop pad_width fmt else done (pad_width, c ∷ fmt)

-- The variables that the conversions change.
pub record Vars : Type 0 where
  pub out : Out
  pub args : List Arg
  pub pad_width : ℕ
  pub num_buf : List ℕ

-- `itoa(num, num_buf, base)`, whose result is not looked at.
unfoldable pub convert_number : ℕ → ℕ → List ℕ → ℕ → Run (List ℕ)
convert_number fuel num num_buf base = do
  r ← itoa fuel num num_buf base
  done (elim r [ none ↦ num_buf | some b ↦ b ])

-- `if (pad_width > 0)`
unfoldable pub pad_number : ℕ → Out → ℕ → List ℕ → Run Out
pad_number size o pad_width num_buf = elim (ltb 0 pad_width) [
  | false ↦ done o
  | true ↦ do num_len ← strlen num_buf; zeros_loop (pad_width - num_len) size o
]

unfoldable pub print_decimal : ℕ → Out → ℕ → List ℕ → Run Out
print_decimal size o pad_width num_buf = do
  o' ← pad_number size o pad_width num_buf
  printstr size o' num_buf

unfoldable pub print_pointer : ℕ → Out → List ℕ → Run Out
print_pointer size o num_buf = do
  tmp_len ← strlen num_buf
  o1 ← printc size o b'0'
  o2 ← printc size o1 b'x'
  o3 ← zeros_loop (sub64 18 tmp_len) size o2
  printstr size o3 (drop 2 num_buf)

unfoldable pub print_hex : ℕ → Out → List ℕ → Run Out
print_hex size o num_buf = do tmp_len ← strlen num_buf; printstr size o (drop 2 num_buf)

-- `va_arg`
unfoldable pub take_number : List Arg → Run (ℕ × List Arg)
take_number (number n ∷ args) = done (n, args)
take_number (pointer s ∷ args) = fault
take_number [] = fault

unfoldable pub take_pointer : List Arg → Run (List ℕ × List Arg)
take_pointer (pointer s ∷ args) = done (s, args)
take_pointer (number n ∷ args) = fault
take_pointer [] = fault

-- The cases of `switch (c)`; for another character there is none.
unfoldable pub print_char : ℕ → Vars → Run Vars
print_char size v = do
  (n, args) ← take_number v.args
  o ← printc size v.out (u8 n)
  done (record v { out = o; args = args })

unfoldable pub print_percent : ℕ → Vars → Run Vars
print_percent size v = do o ← printc size v.out b'%'; done (record v { out = o })

unfoldable pub print_d : ℕ → Vars → Run Vars
print_d size v = do
  (n, args) ← take_number v.args
  num_buf ← convert_number 20 n v.num_buf 10
  o ← print_decimal size v.out v.pad_width num_buf
  done (record { out = o; args = args; pad_width = 0; num_buf = num_buf })

unfoldable pub print_p : ℕ → Vars → Run Vars
print_p size v = do
  (n, args) ← take_number v.args
  num_buf ← convert_number 17 n v.num_buf 16
  o ← print_pointer size v.out num_buf
  done (record v { out = o; args = args; num_buf = num_buf })

unfoldable pub print_x : ℕ → Vars → Run Vars
print_x size v = do
  (n, args) ← take_number v.args
  num_buf ← convert_number 17 n v.num_buf 16
  o ← print_hex size v.out num_buf
  done (record v { out = o; args = args; num_buf = num_buf })

unfoldable pub print_s : ℕ → Vars → Run Vars
print_s size v = do
  (s, args) ← take_pointer v.args
  o ← printstr size v.out s
  done (record v { out = o; args = args })

unfoldable pub conversion : ℕ → ℕ → Vars → Run Vars
conversion c size v =
    if c == b'c'
    then print_char size v
    else if c == b'%'
    then print_percent size v
    else if c == b'd'
    then print_d size v
    else if c == b'p'
    then print_p size v
    else if c == b'x'
    then print_x size v
    else if c == b's'
    then print_s size v
    else done v

-- What follows a '%'.
unfoldable pub directive : ℕ → List ℕ → Vars → Run (Vars × List ℕ)
directive size fmt v = do
  (pad_width, fmt1) ← read_width v.pad_width fmt
  c ← load fmt1 0
  v' ← conversion c size (record v { pad_width = pad_width })
  done (v', drop 1 fmt1)

-- `while (off < (size - 1))`: the value returned, an `int` as its bit pattern, and the variables.
unfoldable pub format_loop : ℕ → ℕ → List ℕ → Vars → Run (Vars × ℕ)
format_loop zero size fmt v = out_of_fuel
format_loop (suc fuel) size fmt v = elim (ltb v.out.off (sub64 size 1)) [
  | false ↦ done (v, 0)
  | true ↦ do
    (o, fmt1) ← text_loop size v.out fmt
    c ← load fmt1 0
    elim (c == 0 || o.off == sub64 size 1) [
      | true ↦ done (record v { out = o }, u32 o.off)
      | false ↦ do
        (v', fmt2) ← directive size (drop 1 fmt1) (record v { out = o })
        format_loop fuel size fmt2 v'
    ]
]

-- The buffer afterwards and the value returned.
unfoldable pub vsnprintf : ℕ → List ℕ → ℕ → List ℕ → List Arg → Run (List ℕ × ℕ)
vsnprintf fuel s size fmt ap = do
  (v, ret) ← format_loop fuel size fmt (record {
    out = record { buf = s; off = 0 };
    args = ap;
    pad_width = 0;
    num_buf = replicate 256 0;
  })
  done (v.out.buf, ret)

unfoldable pub snprintf : ℕ → List ℕ → ℕ → List ℕ → List Arg → Run (List ℕ × ℕ)
unfolding vsnprintf
snprintf fuel s size fmt ap = vsnprintf fuel s size fmt ap
