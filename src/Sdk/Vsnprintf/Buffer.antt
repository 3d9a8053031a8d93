-- ===== src/Sdk/Vsnprintf/Buffer.antt =====
-- What the functions that print write: the buffer holds a text, cut to what fits, and behind it a
-- mark, which is the terminator once something was printed; the rest is as it was.
use native.Mathlib.Decide.{dec_lt}
use open_modality.Base.{
  ℕ, zero, suc, ◌+◌, ◌^◌, ◌<◌, ◌≤◌, ◌≡◌, ◌≢◌, ◌⊎◌, ◌∙◌, refl, sym, ap, true, false, List, [], ◌∷◌,
  ◌++◌, append-nil, append_assoc, arith,
}
use open_modality.Base.Tests.{ltb}
use open_modality.Base.Lists.{
  length, take, drop, replicate, All, length-append, length-take, take-append, take_long,
  take-append-take, drop-cons,
}
use open_modality.Base.Run.{done}
use open_modality.Base.Words.{sub64}
use open_modality.Sdk.Memory.{store}
use open_modality.Sdk.Itoa.Reverse.{store-at}
use open_modality.Sdk.Vsnprintf.{Out, printc, printstr_loop, printstr, zeros_loop, text_loop}

-- The text so far, with a mark behind it, over what the buffer held.
abbrev pub written : List ℕ → List ℕ → ℕ → Out
written buf k mark = record { buf = k ++ mark ∷ drop (suc (length k)) buf; off = length k }

-- The text with more behind it, as far as it fits.
abbrev pub grown : ℕ → List ℕ → List ℕ → List ℕ
grown n k s = take n (k ++ s)

-- The mark behind characters that were printed one by one.
abbrev pub mark_behind : ℕ → List ℕ → ℕ
mark_behind mark [] = mark
mark_behind mark (c ∷ s) = 0

mark_behind-zero : (s : List ℕ) → mark_behind 0 s ≡ 0
mark_behind-zero [] = refl
mark_behind-zero (c ∷ s) = refl

pub grown-grown : (n : ℕ) (k s t : List ℕ) → grown n (grown n k s) t ≡ grown n k (s ++ t)
grown-grown n k s t = take-append-take n (k ++ s) t ∙ ap (take n) (append_assoc k s t)

pub length-grown : (n : ℕ) (k s : List ℕ) → length (grown n k s) ≤ n
length-grown n k s = omega (arith, length-take n (k ++ s))

pub grown-nil : (n : ℕ) (k : List ℕ) → length k ≤ n → grown n k [] ≡ k
grown-nil n k h = ap (take n) (append-nil k) ∙ take_long n k h

pub grown_full : (n : ℕ) (k s : List ℕ) → length k ≡ n → grown n k s ≡ k
grown_full n k s e = ap (λ m. take m (k ++ s)) (sym e) ∙ take-append k s

pub grown_room : (n : ℕ) (k s : List ℕ) → length k + length s ≤ n → grown n k s ≡ k ++ s
grown_room n k s h = take_long n (k ++ s) (omega (arith, length-append k s))

-- A buffer of more than `n` characters, of which the call may use `suc n`.
module _ (n : ℕ) (buf : List ℕ) (room : n < length buf) (small : n < 2 ^ 63) where
  last_lem : sub64 (suc n) 1 ≡ n
  last_lem = omega arith

  pub within : (o : ℕ) → o < n → ltb o (sub64 (suc n) 1) ≡ true
  within o h = ground arith

  pub beyond : (o : ℕ) → n ≤ o → ltb o (sub64 (suc n) 1) ≡ false
  beyond o h = ground arith

  -- One character and its place behind the text.
  module _ (k : List ℕ) (mark c : ℕ) (h : length k < n) where
    store-text :
        store (k ++ mark ∷ drop (suc (length k)) buf) (length k) c
        ≡ done (k ++ c ∷ drop (suc (length k)) buf)
    store-text = store-at k mark (drop (suc (length k)) buf) (length k) refl c

    next_place : (x : ℕ) × drop (suc (length k)) buf ≡ x ∷ drop (suc (suc (length k))) buf
    next_place = drop-cons (suc (length k)) buf (omega arith)

    one_more : length (k ++ c ∷ []) ≡ length k + 1
    one_more = omega (arith, length-append k (c ∷ []))

    -- The buffer seen with the character as part of the text.
    shifted :
        (x : ℕ)
        → drop (suc (length k)) buf ≡ x ∷ drop (suc (suc (length k))) buf
        → record { buf = k ++ c ∷ drop (suc (length k)) buf; off = length k + 1 }
          ≡ written buf (k ++ c ∷ []) x
    shifted x e =
        ap (λ d. record { buf = k ++ c ∷ d; off = length k + 1 }) e
        ∙ ap (λ o. record { buf = k ++ c ∷ x ∷ drop (suc (suc (length k))) buf; off = o })
            (omega arith)
        ∙ ap (λ l. record { buf = l; off = suc (length k) })
            (sym (append_assoc k (c ∷ []) (x ∷ drop (suc (suc (length k))) buf)))
        ∙ ap (λ m. record { buf = (k ++ c ∷ []) ++ x ∷ drop (suc m) buf; off = m })
            (omega (arith, length-append k (c ∷ [])))

  store-mark :
      (k : List ℕ) (mark v : ℕ)
      → store (k ++ mark ∷ drop (suc (length k)) buf) (length k) v
        ≡ done (k ++ v ∷ drop (suc (length k)) buf)
  store-mark k mark v = store-at k mark (drop (suc (length k)) buf) (length k) refl v

  printc-full :
      (k : List ℕ) (mark c : ℕ)
      → n ≤ length k
      → printc (suc n) (written buf k mark) c ≡ done (written buf k 0)
  unfolding printc
  printc-full k mark c h =
      let test = beyond (length k) h in let put = store-mark k mark 0 in ground arith

  printc-room :
      (k : List ℕ) (mark c : ℕ)
      → length k < n
      → printc (suc n) (written buf k mark) c ≡ done (written buf (k ++ c ∷ []) 0)
  unfolding printc
  printc-room k mark c h =
      let (x, e) = next_place k mark c h in
      let seen = shifted k mark c h x e in
      let test = within (length k) h in
      let put = store-text k mark c h in
      let ended : store (k ++ c ∷ drop (suc (length k)) buf) (length k + 1) 0
          ≡ done ((k ++ c ∷ []) ++ 0 ∷ drop (suc (length (k ++ c ∷ []))) buf) =
        ap (λ o. store o.buf o.off 0) seen ∙ store-mark (k ++ c ∷ []) x 0 in
      let place = one_more k mark c h in
      let result : done (record {
        buf = (k ++ c ∷ []) ++ 0 ∷ drop (suc (length (k ++ c ∷ []))) buf;
        off = length k + 1;
      })
          ≡ done (written buf (k ++ c ∷ []) 0) =
        ap
          (λ o.
            done (record {
              buf = (k ++ c ∷ []) ++ 0 ∷ drop (suc (length (k ++ c ∷ []))) buf;
              off = o;
            }))
          (sym place) in
      ground arith

  pub printc_lem :
      (k : List ℕ) (mark c : ℕ)
      → length k ≤ n
      → printc (suc n) (written buf k mark) c ≡ done (written buf (grown n k (c ∷ [])) 0)
  printc_lem k mark c h = elim (dec_lt (length k) n) [
    | yes p ↦
        printc-room k mark c p
        ∙ ap (λ l. done (written buf l 0)) (sym (grown_room n k (c ∷ []) (omega arith)))
    | no q ↦
        printc-full k mark c (omega arith)
        ∙ ap (λ l. done (written buf l 0)) (sym (grown_full n k (c ∷ []) (omega arith)))
  ]

  printstr_loop-round :
      (k : List ℕ) (mark c : ℕ) (s : List ℕ) (x : ℕ)
      → length k < n
      → c ≢ 0
      → drop (suc (length k)) buf ≡ x ∷ drop (suc (suc (length k))) buf
      → printstr_loop (suc n) (written buf k mark) (c ∷ s)
        ≡ printstr_loop (suc n) (written buf (k ++ c ∷ []) x) s
  unfolding printstr_loop
  printstr_loop-round k mark c s x h nz e =
      let seen = shifted k mark c h x e in
      let test = within (length k) h in
      let put = store-text k mark c h in
      let next = ap (λ o. printstr_loop (suc n) o s) seen in ground arith

  printstr_loop-full :
      (k : List ℕ) (mark : ℕ) (s : List ℕ)
      → n ≤ length k
      → printstr_loop (suc n) (written buf k mark) s ≡ done (written buf k mark)
  unfolding printstr_loop
  printstr_loop-full k mark [] h = let test = beyond (length k) h in ground arith
  printstr_loop-full k mark (c ∷ s) h = let test = beyond (length k) h in ground arith

  printstr_loop-end :
      (k : List ℕ) (mark : ℕ) (rest : List ℕ)
      → printstr_loop (suc n) (written buf k mark) (0 ∷ rest) ≡ done (written buf k mark)
  unfolding printstr_loop
  printstr_loop-end k mark rest = ground arith

  printstr_loop_lem :
      (s : List ℕ) (k : List ℕ) (mark : ℕ) (rest : List ℕ)
      → length k ≤ n
      → All (λ c. c ≢ 0) s
      → (mark' : ℕ) × (printstr_loop (suc n) (written buf k mark) (s ++ 0 ∷ rest)
          ≡ done (written buf (grown n k s) mark'))
  printstr_loop_lem [] k mark rest h chars = (
    mark,
    printstr_loop-end k mark rest ∙ ap (λ l. done (written buf l mark)) (sym (grown-nil n k h)),
  )
  printstr_loop_lem (c ∷ s) k mark rest h (nz, chars) = elim (dec_lt (length k) n) [
    | no q ↦ (
      mark,
      printstr_loop-full k mark (c ∷ (s ++ 0 ∷ rest)) (omega arith)
          ∙ ap (λ l. done (written buf l mark)) (sym (grown_full n k (c ∷ s) (omega arith))),
    )
    | yes p ↦
        let (x, e) = next_place k mark c p in
        let (mark', run) =
          printstr_loop_lem s (k ++ c ∷ []) x rest (omega (arith, length-append k (c ∷ [])))
            chars in
        (
          mark',
          printstr_loop-round k mark c (s ++ 0 ∷ rest) x p nz e
              ∙ run
              ∙ ap (λ l. done (written buf (take n l) mark')) (append_assoc k (c ∷ []) s),
        )
  ]

  pub printstr_lem :
      (s : List ℕ) (k : List ℕ) (mark : ℕ) (rest : List ℕ)
      → length k ≤ n
      → All (λ c. c ≢ 0) s
      → printstr (suc n) (written buf k mark) (s ++ 0 ∷ rest) ≡ done (written buf (grown n k s) 0)
  unfolding printstr
  printstr_lem s k mark rest h chars =
      let (mark', run) = printstr_loop_lem s k mark rest h chars in
      rw (run, store-mark (grown n k s) mark' 0) refl

  pub zeros_loop_lem :
      (rounds : ℕ) (k : List ℕ) (mark : ℕ)
      → length k ≤ n
      → (mark' : ℕ) × (zeros_loop rounds (suc n) (written buf k mark)
          ≡ done (written buf (grown n k (replicate rounds b'0')) mark'))
  unfolding zeros_loop
  zeros_loop_lem zero k mark h = (mark, ap (λ l. done (written buf l mark)) (sym (grown-nil n k h)))
  zeros_loop_lem (suc rounds) k mark h =
      let k' = grown n k (b'0' ∷ []) in
      let (mark', run) = zeros_loop_lem rounds k' 0 (length-grown n k (b'0' ∷ [])) in
      (
        mark',
        rw (printc_lem k mark b'0' h) (
            run
            ∙ ap (λ l. done (written buf l mark'))
                (grown-grown n k (b'0' ∷ []) (replicate rounds b'0'))),
      )

  text_loop-round :
      (k : List ℕ) (mark c : ℕ) (fmt : List ℕ) (o : Out)
      → c ≢ 0
      → c ≢ b'%'
      → printc (suc n) (written buf k mark) c ≡ done o
      → text_loop (suc n) (written buf k mark) (c ∷ fmt) ≡ text_loop (suc n) o fmt
  unfolding text_loop
  text_loop-round k mark c fmt o nz np put = ground arith

  text_loop-stop :
      (o : Out) (c : ℕ) (fmt : List ℕ)
      → (c ≡ 0) ⊎ (c ≡ b'%')
      → text_loop (suc n) o (c ∷ fmt) ≡ done (o, c ∷ fmt)
  unfolding text_loop
  text_loop-stop o c fmt at_end = ground arith

  pub text_loop_lem :
      (lit : List ℕ) (k : List ℕ) (mark c : ℕ) (fmt : List ℕ)
      → length k ≤ n
      → All (λ c. (c ≢ 0) × (c ≢ b'%')) lit
      → (c ≡ 0) ⊎ (c ≡ b'%')
      → text_loop (suc n) (written buf k mark) (lit ++ c ∷ fmt)
        ≡ done (written buf (grown n k lit) (mark_behind mark lit), c ∷ fmt)
  text_loop_lem [] k mark c fmt h plain at_end =
      text_loop-stop (written buf k mark) c fmt at_end
      ∙ ap (λ l. done (written buf l mark, c ∷ fmt)) (sym (grown-nil n k h))
  text_loop_lem (x ∷ lit) k mark c fmt h ((nz, np), plain) at_end =
      let k' = grown n k (x ∷ []) in
      text_loop-round k mark x (lit ++ c ∷ fmt) (written buf k' 0) nz np (printc_lem k mark x h)
      ∙ text_loop_lem lit k' 0 c fmt (length-grown n k (x ∷ [])) plain at_end
      ∙ ap (λ m. done (written buf (grown n k' lit) m, c ∷ fmt)) (mark_behind-zero lit)
      ∙ ap (λ l. done (written buf l 0, c ∷ fmt)) (grown-grown n k (x ∷ []) lit)
