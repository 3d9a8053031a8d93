-- ===== src/Core/Elfload/Image.antt =====
-- An image in memory: its header and program headers, and what keeps them.
use native.Mathlib.Decide.{dec_lt}
use open_modality.Base.{
  ℕ, ◌+◌, ◌-◌, ◌*◌, ◌^◌, ◌<◌, ◌≤◌, ◌≡◌, ◌⊎◌, ◌∙◌, inl, inr, refl, ap, some, List, [], ◌∷◌, arith,
}
use open_modality.Base.Ram.{Ram, read_int, read_int-same}
use open_modality.Base.Run.{Run, done, ◌>>=◌}
use open_modality.Base.Words.{u64}
use open_modality.Core.Elfload.{Phdr, read_phdr}
use open_modality.Core.Elfload.Copy.{IsThere}

-- The memory holds in `size` bytes from `eh` on what it held before, and no byte has gone.
pub record Keeps (eh size : ℕ) (ram ram' : Ram) : Type 0 where
  pub image : (b : ℕ) → eh ≤ b → b < eh + size → ram' b ≡ ram b
  pub there : (b x : ℕ) → ram b ≡ some x → (y : ℕ) × (ram' b ≡ some y)

pub Keeps-refl : (eh size : ℕ) (ram : Ram) → Keeps eh size ram ram
Keeps-refl eh size ram = record { image = λ b h g. refl; there = λ b x e. (x, e) }

pub IsThere-Keeps :
    (eh size a n : ℕ) (ram ram' : Ram) → Keeps eh size ram ram' → IsThere ram a n → IsThere ram' a n
IsThere-Keeps eh size a n ram ram' kept there k h = let (x, e) = there k h in kept.there (a + k) x e

-- A copy to elsewhere keeps the image.
pub Copied-Keeps :
    (eh size n d u : ℕ) (ram ram' after : Ram)
    → Keeps eh size ram ram'
    → ((k : ℕ) → k < n → after (d + k) ≡ ram' (u + k))
    → ((b : ℕ) → (b < d) ⊎ (d + n ≤ b) → after b ≡ ram' b)
    → IsThere ram' u n
    → (eh + size ≤ d) ⊎ (d + n ≤ eh)
    → Keeps eh size ram after
Copied-Keeps eh size n d u ram ram' after kept copies others from apart = record {
  image = λ b low high.
      let outside : (b < d) ⊎ (d + n ≤ b) = elim apart [
        | inl l ↦ inl (omega arith)
        | inr r ↦ inr (omega arith)
      ] in
      others b outside ∙ kept.image b low high;
  there = λ b x e.
      let (y, was) = kept.there b x e in
      elim (dec_lt b d) [
        | yes p ↦ (y, others b (inl p) ∙ was)
        | no q ↦ elim (dec_lt b (d + n)) [
          | no beyond ↦ (y, others b (inr (omega arith)) ∙ was)
          | yes inside ↦
              let (k, less, at) : (k : ℕ) × (k < n) × (b ≡ d + k) =
                (b - d, omega arith, omega arith) in
              let (z, here) = from k less in (z, ap after at ∙ copies k less ∙ here)
        ]
      ];
}

-- A program header of the image.
pub record HeaderAt (eh size : ℕ) (ram : Ram) (at : ℕ) (phdr : Phdr) : Type 0 where
  pub low : eh ≤ at
  pub high : at + 56 ≤ eh + size
  pub held : read_phdr ram at ≡ done phdr

abbrev gather : Run ℕ → Run ℕ → Run ℕ → Run ℕ → Run ℕ → Run Phdr
gather r0 r1 r2 r3 r4 = do
  p_type ← r0
  p_flags ← r1
  p_offset ← r2
  p_vaddr ← r3
  p_memsz ← r4
  done (record {
    p_type = p_type;
    p_flags = p_flags;
    p_offset = p_offset;
    p_vaddr = p_vaddr;
    p_memsz = p_memsz;
  })

-- A number in the image reads as before.
pub read_int-Keeps :
    (eh size k a : ℕ) (ram ram' : Ram)
    → Keeps eh size ram ram'
    → eh ≤ a
    → a + k ≤ eh + size
    → read_int k ram' a ≡ read_int k ram a
read_int-Keeps eh size k a ram ram' kept low high =
    read_int-same k a ram ram' (λ b l g. kept.image b (omega arith) (omega arith))

pub read_phdr-Keeps :
    (eh size at : ℕ) (ram ram' : Ram) (phdr : Phdr)
    → Keeps eh size ram ram'
    → HeaderAt eh size ram at phdr
    → read_phdr ram' at ≡ done phdr
read_phdr-Keeps eh size at ram ram' phdr kept h =
    let low = h.low in
    let high = h.high in
    let type : Run ℕ = read_int 4 ram at in
    let flags : Run ℕ = read_int 4 ram (at + 4) in
    let offset : Run ℕ = read_int 8 ram (at + 8) in
    let vaddr : Run ℕ = read_int 8 ram (at + 16) in
    let same = read_int-Keeps eh size 4 at ram ram' kept low (omega arith) in
    let same1 = read_int-Keeps eh size 4 (at + 4) ram ram' kept (omega arith) (omega arith) in
    let same2 = read_int-Keeps eh size 8 (at + 8) ram ram' kept (omega arith) (omega arith) in
    let same3 = read_int-Keeps eh size 8 (at + 16) ram ram' kept (omega arith) (omega arith) in
    let same4 = read_int-Keeps eh size 8 (at + 40) ram ram' kept (omega arith) (omega arith) in
    ap
      (λ r.
        gather r (read_int 4 ram' (at + 4)) (read_int 8 ram' (at + 8)) (read_int 8 ram' (at + 16))
          (read_int 8 ram' (at + 40)))
      same
    ∙ ap
        (λ r.
          gather type r (read_int 8 ram' (at + 8)) (read_int 8 ram' (at + 16))
            (read_int 8 ram' (at + 40)))
        same1
    ∙ ap (λ r. gather type flags r (read_int 8 ram' (at + 16)) (read_int 8 ram' (at + 40))) same2
    ∙ ap (λ r. gather type flags offset r (read_int 8 ram' (at + 40))) same3
    ∙ ap (λ r. gather type flags offset vaddr r) same4
    ∙ h.held

-- The program headers from number `i` on.
abbrev pub HeadersFrom : ℕ → ℕ → Ram → ℕ → ℕ → ℕ → List Phdr → Type 0
HeadersFrom eh size ram base entsize i [] = Unit
HeadersFrom eh size ram base entsize i (p ∷ ps) =
    (entsize * i < 2 ^ 31)
    × HeaderAt eh size ram (u64 (base + entsize * i)) p
    × HeadersFrom eh size ram base entsize (i + 1) ps
