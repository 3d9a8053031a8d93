-- ===== src/Core/Elfload/Copy.antt =====
-- The copy of a segment from the image to its frames.
use mathlib.Core.Path.{subst}
use native.Mathlib.Decide.{ℕ_discrete}
use open_modality.Base.{
  ℕ, zero, suc, ◌+◌, ◌-◌, ◌<◌, ◌≤◌, ◌≡◌, ◌≢◌, ◌⊎◌, ◌∙◌, inl, inr, refl, sym, ap, some, arith,
}
use open_modality.Base.Tests.{◌==◌, if◌then◌else◌}
use open_modality.Base.Ram.{Ram, write_byte}
use open_modality.Base.Run.{Run, done, ◌>>=◌, from_option}
use open_modality.Core.Elfload.{copy_segment}

-- So many bytes from an address on are there.
abbrev pub IsThere : Ram → ℕ → ℕ → Type 0
IsThere ram a n = (k : ℕ) → k < n → (b : ℕ) × (ram (a + k) ≡ some b)

-- What a copy of `n` bytes from `u` to `d` does.
pub record Copied (n d u : ℕ) (ram : Ram) (run : Run Ram) : Type 0 where
  pub after : Ram
  pub out : run ≡ done after
  pub copies : (k : ℕ) → k < n → after (d + k) ≡ ram (u + k)
  pub others : (a : ℕ) → (a < d) ⊎ (d + n ≤ a) → after a ≡ ram a

abbrev poked : Ram → ℕ → ℕ → Ram
poked ram d b q = if q == d then some b else ram q

poked_other : (ram : Ram) (d b q : ℕ) → q ≢ d → poked ram d b q ≡ ram q
poked_other ram d b q ne = ground arith

poked_same : (ram : Ram) (d b q : ℕ) → q ≡ d → poked ram d b q ≡ some b
poked_same ram d b q e = ground arith

IsThere-poked :
    (ram : Ram) (d b a n : ℕ)
    → (d < a) ⊎ (a + n ≤ d)
    → IsThere ram a n
    → IsThere (poked ram d b) a n
IsThere-poked ram d b a n apart there k h =
    let (c, e) = there k h in
    let ne : a + k ≢ d =
      λ z. elim apart [ inl l ↦ absurd (omega arith) | inr r ↦ absurd (omega arith) ] in
    (c, poked_other ram d b (a + k) ne ∙ e)

IsThere-next : (ram : Ram) (a n : ℕ) → IsThere ram a (suc n) → IsThere ram (a + 1) n
IsThere-next ram a n there k h =
    let (c, e) = there (suc k) (omega arith) in
    let same : a + 1 + k ≡ a + suc k = omega arith in (c, ap ram same ∙ e)

-- The first byte, and then the others.
Copied-next :
    (n d u b : ℕ) (ram : Ram) (run : Run Ram)
    → ram u ≡ some b
    → (u + suc n ≤ d) ⊎ (d + suc n ≤ u)
    → Copied n (d + 1) (u + 1) (poked ram d b) run
    → Copied (suc n) d u ram run
Copied-next n d u b ram run here apart c = record {
  after = c.after;
  out = c.out;
  copies = λ k h. elim (ℕ_discrete k 0) [
    | yes z ↦
        let at_d : d + k ≡ d = omega arith in
        let at_u : u ≡ u + k = omega arith in
        ap c.after at_d
        ∙ c.others d (inl (omega arith))
        ∙ poked_same ram d b d refl
        ∙ sym here
        ∙ ap ram at_u
    | no ne ↦
        let (j, e) : (j : ℕ) × (k ≡ suc j) = (k - 1, omega arith) in
        let at_d : d + k ≡ d + 1 + j = omega arith in
        let at_u : u + 1 + j ≡ u + k = omega arith in
        let other : u + 1 + j ≢ d =
          λ z. elim apart [ inl l ↦ absurd (omega arith) | inr r ↦ absurd (omega arith) ] in
        ap c.after at_d
        ∙ c.copies j (omega arith)
        ∙ poked_other ram d b (u + 1 + j) other
        ∙ ap ram at_u
  ];
  others = λ a outside.
      let ne : a ≢ d =
        λ z. elim outside [ inl l ↦ absurd (omega arith) | inr r ↦ absurd (omega arith) ] in
      let outside' : (a < d + 1) ⊎ (d + 1 + n ≤ a) = elim outside [
        | inl l ↦ inl (omega arith)
        | inr r ↦ inr (omega arith)
      ] in
      c.others a outside' ∙ poked_other ram d b a ne;
}

write_byte-there :
    (ram : Ram) (a b old : ℕ) → ram a ≡ some old → write_byte ram a b ≡ done (poked ram a b)
write_byte-there ram a b old e = rw (write_byte, e) refl

one_byte :
    (n i dest src b old : ℕ) (ram : Ram)
    → ram (src + i) ≡ some b
    → ram (dest + i) ≡ some old
    → copy_segment (suc n) i dest src ram ≡ copy_segment n (i + 1) dest src (poked ram (dest + i) b)
unfolding copy_segment
one_byte n i dest src b old ram from to =
    ap
      (λ o. from_option o >>= λ c.
        (write_byte ram (dest + i) c >>= λ ram'. copy_segment n (i + 1) dest src ram'))
      from
    ∙ ap (λ r. r >>= λ ram'. copy_segment n (i + 1) dest src ram')
        (write_byte-there ram (dest + i) b old to)

-- Where both ranges are there and lie apart, the copy ends.
pub copy_segment-Copied :
    (n i dest src d u : ℕ) (ram : Ram)
    → d ≡ dest + i
    → u ≡ src + i
    → IsThere ram u n
    → IsThere ram d n
    → (u + n ≤ d) ⊎ (d + n ≤ u)
    → Copied n d u ram (copy_segment n i dest src ram)
unfolding copy_segment
copy_segment-Copied zero i dest src d u ram ed eu from to apart = record {
  after = ram;
  out = refl;
  copies = λ k h. absurd (omega arith);
  others = λ a outside. refl;
}
copy_segment-Copied (suc n) i dest src d u ram ed eu from to apart =
    let (b, here_u) = from 0 (omega arith) in
    let (old, here_d) = to 0 (omega arith) in
    let at_u : u + 0 ≡ u = omega arith in
    let at_d : d + 0 ≡ d = omega arith in
    let here : ram u ≡ some b = ap ram (sym at_u) ∙ here_u in
    let there : ram (dest + i) ≡ some old = ap ram (sym ed) ∙ ap ram (sym at_d) ∙ here_d in
    let ih =
      copy_segment-Copied n (i + 1) dest src (d + 1) (u + 1) (poked ram d b) (omega arith)
        (omega arith)
        (IsThere-poked ram d b (u + 1) n
          (elim apart [ inl l ↦ inr (omega arith) | inr r ↦ inl (omega arith) ])
          (IsThere-next ram u n from))
        (IsThere-poked ram d b (d + 1) n (inl (omega arith)) (IsThere-next ram d n to))
        (elim apart [ inl l ↦ inl (omega arith) | inr r ↦ inr (omega arith) ]) in
    let here' : ram (src + i) ≡ some b = ap ram (sym eu) ∙ here in
    let step : copy_segment (suc n) i dest src ram
        ≡ copy_segment n (i + 1) dest src (poked ram d b) =
      one_byte n i dest src b old ram here' there
      ∙ ap (λ a. copy_segment n (i + 1) dest src (poked ram a b)) (sym ed) in
    Copied-next n d u b ram (copy_segment (suc n) i dest src ram) here apart
      (subst (Copied n (d + 1) (u + 1) (poked ram d b)) (sym step) ih)
