-- ===== src/Core/Trace.antt =====
-- `printf` and `panic` of sys/hive/core/trace.c and panic.c, with what they call of the machine:
-- `mu_uart_write` of sys/hive/arch/amd64/io/uart.S and `mu_panic_preamble` of
-- sys/hive/arch/amd64/core/panic.S. A result is the bytes that go out on the serial line.
pub mod Laws
use open_modality.Base.{ℕ, ◌%◌, Bool, true, false, Option, none, some, List, [], ◌∷◌, ◌++◌}
use open_modality.Base.Tests.{◌==◌}
use open_modality.Base.Run.{Run, done, fault, ◌>>=◌}
use open_modality.Base.Words.{sub64}
use open_modality.Sdk.Str.{strlen}
use open_modality.Sdk.Vsnprintf.{Arg, pointer, vsnprintf}

abbrev pub trace_bufsize : ℕ
trace_bufsize = 128

-- `1: lodsb; outb; loop 1b` with the count in a register: a byte is written before the count is
-- lowered and compared with zero.
unfoldable pub mu_uart_write : List ℕ → ℕ → Run (List ℕ)
mu_uart_write [] rcx = fault
mu_uart_write (c ∷ s) rcx =
    let rest = mu_uart_write s (sub64 rcx 1) in
    elim (sub64 rcx 1 == 0) [ true ↦ done (c ∷ []) | false ↦ do out ← rest; done (c ∷ out) ]

unfoldable pub trace_write : Option (List ℕ) → Run (List ℕ)
trace_write none = done []
trace_write (some s) = do len ← strlen s; mu_uart_write s len

-- `buf` is what the stack holds where the buffer lies.
unfoldable pub printf : ℕ → List ℕ → List ℕ → List Arg → Run (List ℕ)
printf fuel buf fmt ap = do
  (buf', ret) ← vsnprintf fuel buf trace_bufsize fmt ap
  trace_write (some buf')

-- `panic_sync` afterwards, and whether the processor goes on, or stays in `mu_panic_lockout`.
unfoldable pub mu_panic_preamble : ℕ → ℕ × Bool
mu_panic_preamble panic_sync = (1, panic_sync % 2 == 0)

-- "panic: "
abbrev pub panic_text : List ℕ
panic_text = b'p' ∷ b'a' ∷ b'n' ∷ b'i' ∷ b'c' ∷ b':' ∷ b' ' ∷ []

-- `panic_sync` and what goes out before the processor halts. `static_buf` is the buffer of `panic`,
-- and `buf` and `buf'` are the stack under the two calls of `printf`.
unfoldable pub panic : ℕ → List ℕ → List ℕ → List ℕ → ℕ → List ℕ → List Arg → Run (ℕ × List ℕ)
unfolding mu_panic_preamble
panic fuel static_buf buf buf' panic_sync fmt ap =
    let (panic_sync', goes_on) = mu_panic_preamble panic_sync in
    elim goes_on [
      | false ↦ done (panic_sync', [])
      | true ↦ do
        (text, ret) ← vsnprintf fuel static_buf 256 fmt ap
        out ← printf fuel buf (panic_text ++ 0 ∷ []) []
        out' ← printf fuel buf' (b'%' ∷ b's' ∷ 0 ∷ []) (pointer text ∷ [])
        done (panic_sync', out ++ out')
    ]
