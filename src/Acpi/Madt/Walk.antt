-- ===== src/Acpi/Madt/Walk.antt =====
-- The walk over the entries of the MADT.
use native.Mathlib.Decide.{ℕ_discrete, dec_lt}
use open_modality.Base.{
  ℕ, zero, suc, ◌+◌, ◌-◌, ◌^◌, ◌<◌, ◌≤◌, ◌≡◌, ◌≢◌, ◌⊎◌, inl, inr, ◌∙◌, refl, ap, Option, none, some,
  List, [], ◌∷◌, ◌++◌, arith,
}
use open_modality.Base.Lists.{length, length-append}
use open_modality.Base.Ram.{Ram, Holds, Holds-append-right}
use open_modality.Base.Run.{Run, done}
use open_modality.Core.Bpt.{Hooks}
use open_modality.Acpi.Tables.{Acpi, acpi_madt_size, header_length, acpi_query}
use open_modality.Acpi.Madt.{sig_apic, visit, walk, walk_madt, acpi_read_madt}

-- An entry: its type and what lies behind its two bytes of header.
pub record MadtEntry : Type 0 where
  pub kind : ℕ
  pub body : List ℕ
  pub short : 2 + length body < 256

abbrev pub entry_size : MadtEntry → ℕ
entry_size e = 2 + length e.body

abbrev pub entries_bytes : List MadtEntry → List ℕ
entries_bytes [] = []
entries_bytes (e ∷ es) = e.kind ∷ entry_size e ∷ (e.body ++ entries_bytes es)

module _ {S : Type 0} (cb : S → ℕ → ℕ → Run (S × ℕ)) (type arg : ℕ) where
  -- What the walk means, from an address on: the callback is called for the entries of the type, in
  -- their order, until it succeeds; -1 if it never does.
  pub data Walked : ℕ → S → List MadtEntry → S → ℕ → Type 0 where
    finished : (a : ℕ) (s : S) → Walked a s [] s (2 ^ 32 - 1)
    skip :
        (a : ℕ) (s : S) (e : MadtEntry) (es : List MadtEntry) (s' : S) (r : ℕ)
        → e.kind ≢ type
        → Walked (a + entry_size e) s es s' r
        → Walked a s (e ∷ es) s' r
    success :
        (a : ℕ) (s : S) (e : MadtEntry) (es : List MadtEntry) (s' : S) (r : ℕ)
        → e.kind ≡ type
        → cb s a arg ≡ done (s', r)
        → r < 2 ^ 31
        → Walked a s (e ∷ es) s' r
    failure :
        (a : ℕ) (s s1 : S) (r1 : ℕ) (e : MadtEntry) (es : List MadtEntry) (s' : S) (r : ℕ)
        → e.kind ≡ type
        → cb s a arg ≡ done (s1, r1)
        → 2 ^ 31 ≤ r1
        → Walked (a + entry_size e) s1 es s' r
        → Walked a s (e ∷ es) s' r

  module _ (ram : Ram) where
    visit-hit :
        (cur : ℕ) (retval : Option ℕ) (s s' : S) (r : ℕ)
        → ram cur ≡ some type
        → cb s cur arg ≡ done (s', r)
        → visit cb type arg ram cur retval s ≡ done (s', some r)
    unfolding visit
    visit-hit cur retval s s' r here called = ground arith

    visit-miss :
        (cur kind : ℕ) (retval : Option ℕ) (s : S)
        → ram cur ≡ some kind
        → kind ≢ type
        → visit cb type arg ram cur retval s ≡ done (s, retval)
    unfolding visit
    visit-miss cur kind retval s here differs = ground arith

    module _ (fuel cur end : ℕ) (retval : Option ℕ) (s s' : S) (r : ℕ) (inside : cur < end)
        (visited : visit cb type arg ram cur retval s ≡ done (s', some r)) where
      walk-success : r < 2 ^ 31 → walk cb type arg ram (suc fuel) cur end retval s ≡ done (s', r)
      unfolding walk
      walk-success small = ground arith

      walk-failure :
          (size : ℕ)
          → 2 ^ 31 ≤ r
          → ram (cur + 1) ≡ some size
          → walk cb type arg ram (suc fuel) cur end retval s
            ≡ walk cb type arg ram fuel (cur + size) end (some r) s'
      unfolding walk
      walk-failure size large sized = ground arith

    -- A walk from an address on that ends, with what it means.
    abbrev Outcome : ℕ → ℕ → ℕ → Option ℕ → S → List MadtEntry → Type 0
    Outcome fuel a end retval s es =
        (s' : S) × (r : ℕ) × (walk cb type arg ram fuel a end retval s ≡ done (s', r))
        × Walked a s es s' r

    finished_walk :
        (fuel a end : ℕ) (retval : Option ℕ) (s : S)
        → end ≡ a
        → Outcome (suc fuel) a end retval s []
    unfolding walk
    finished_walk fuel a end retval s e = (s, 2 ^ 32 - 1, ground arith, finished a s)

    module _ (total : (s : S) (a : ℕ) → (s' : S) × (r : ℕ) × cb s a arg ≡ done (s', r)) where
      hit :
          (fuel a end : ℕ) (retval : Option ℕ) (s : S) (e : MadtEntry) (es : List MadtEntry)
          → e.kind ≡ type
          → a < end
          → Holds ram a (entries_bytes (e ∷ es))
          → ((s1 : S) (r1 : ℕ) → 2 ^ 31 ≤ r1 → Outcome fuel (a + entry_size e) end (some r1) s1 es)
          → Outcome (suc fuel) a end retval s (e ∷ es)
      hit fuel a end retval s e es same inside (here, (sized, held)) continue =
          let (s1, r1, called) = total s a in
          let here' : ram a ≡ some type = here ∙ ap some same in
          let visited = visit-hit a retval s s1 r1 here' called in
          elim (dec_lt r1 (2 ^ 31)) [
            | yes small ↦ (
              s1,
              r1,
              walk-success fuel a end retval s s1 r1 inside visited small,
              success a s e es s1 r1 same called small,
            )
            | no negative ↦
                let large : 2 ^ 31 ≤ r1 = omega arith in
                let (s', r, run, walked) = continue s1 r1 large in
                (
                  s',
                  r,
                  walk-failure fuel a end retval s s1 r1 inside visited (entry_size e) large sized
                      ∙ run,
                  failure a s s1 r1 e es s' r same called large walked,
                )
          ]

      behind :
          (a : ℕ) (e : MadtEntry) (es : List MadtEntry)
          → Holds ram a (entries_bytes (e ∷ es))
          → Holds ram (a + entry_size e) (entries_bytes es)
      behind a e es (here, (sized, held)) =
          Holds-append-right ram (a + 1 + 1) (a + entry_size e) e.body (entries_bytes es)
            (omega arith) held

      walk_lem :
          (es : List MadtEntry) (fuel a end r0 : ℕ) (s : S)
          → length es ≤ fuel
          → end ≡ a + length (entries_bytes es)
          → 2 ^ 31 ≤ r0
          → Holds ram a (entries_bytes es)
          → Outcome (suc fuel) a end (some r0) s es
      walk_lem [] fuel a end r0 s enough e negative held =
          finished_walk fuel a end (some r0) s (omega arith)
      walk_lem (x ∷ es) zero a end r0 s enough e negative held = absurd (omega arith)
      walk_lem (x ∷ es) (suc fuel) a end r0 s enough e negative held =
          let size = length-append x.body (entries_bytes es) in
          let (here, (sized, rest)) = held in
          let inside : a < end = omega arith in
          let end' : end ≡ a + entry_size x + length (entries_bytes es) = omega arith in
          let next : (s1 : S) (r1 : ℕ)
              → 2 ^ 31 ≤ r1
              → Outcome (suc fuel) (a + entry_size x) end (some r1) s1 es =
            λ s1 r1 large.
              walk_lem es fuel (a + entry_size x) end r1 s1 (omega arith) end' large
                (behind a x es held) in
          elim (ℕ_discrete x.kind type) [
            | yes same ↦ hit (suc fuel) a end (some r0) s x es same inside held next
            | no differs ↦
                let (s', r, run, walked) = next s r0 negative in
                (
                  s',
                  r,
                  walk-failure (suc fuel) a end (some r0) s s r0 inside
                        (visit-miss a x.kind (some r0) s here differs) (entry_size x) negative sized
                      ∙ run,
                  skip a s x es s' r differs walked,
                )
          ]

      walk_madt_lem :
          (fuel madt : ℕ) (s : S) (e : MadtEntry) (es : List MadtEntry)
          → length (e ∷ es) ≤ fuel
          → header_length ram madt ≡ done (acpi_madt_size + length (entries_bytes (e ∷ es)))
          → Holds ram (madt + acpi_madt_size) (entries_bytes (e ∷ es))
          → e.kind ≡ type
          → (s' : S) × (r : ℕ) × (walk_madt cb type arg ram (suc fuel) madt s ≡ done (s', r))
            × Walked (madt + acpi_madt_size) s (e ∷ es) s' r
      unfolding walk_madt
      walk_madt_lem zero madt s e es enough sized held same = absurd (omega arith)
      walk_madt_lem (suc fuel) madt s e es enough sized held same =
          let start = madt + acpi_madt_size in
          let end = madt + (acpi_madt_size + length (entries_bytes (e ∷ es))) in
          let size = length-append e.body (entries_bytes es) in
          let (s', r, run, walked) =
            hit (suc fuel) start end none s e es same (omega arith) held (λ s1 r1 large.
              walk_lem es fuel (start + entry_size e) end r1 s1 (omega arith) (omega arith) large
                (behind start e es held)) in
          (s', r, rw sized run, walked)

-- Where the MADT is known, or found by its signature, and its first entry is of the type asked for, a
-- callback that always returns is called for the entries of that type in their order until it
-- succeeds; the result is what it then returned, or -1, and the address of the table is kept.
pub acpi_read_madt_lem :
    {S : Type 0} (fuel : ℕ) (hooks : Hooks) (ram : Ram) (type : ℕ) (cb : S → ℕ → ℕ → Run (S × ℕ))
    (arg : ℕ) (acpi : Acpi) (s : S) (madt : ℕ) (e : MadtEntry) (es : List MadtEntry)
    → (acpi.madt ≡ some madt)
      ⊎ ((acpi.madt ≡ none) × (acpi_query acpi sig_apic hooks ram ≡ done (some madt)))
    → ((s : S) (a : ℕ) → (s' : S) × (r : ℕ) × cb s a arg ≡ done (s', r))
    → length (e ∷ es) ≤ fuel
    → header_length ram madt ≡ done (acpi_madt_size + length (entries_bytes (e ∷ es)))
    → Holds ram (madt + acpi_madt_size) (entries_bytes (e ∷ es))
    → e.kind ≡ type
    → (acpi' : Acpi) × (s' : S) × (r : ℕ) × (acpi_read_madt
          (suc fuel)
          hooks
          ram
          type
          (some cb)
          arg
          acpi
          s
        ≡ done (some (acpi', s', r)))
      × (acpi'.madt ≡ some madt)
      × Walked cb type arg (madt + acpi_madt_size) s (e ∷ es) s' r
unfolding acpi_read_madt
acpi_read_madt_lem fuel hooks ram type cb arg acpi s madt e es located total enough sized held
      same =
    let (s', r, run, walked) =
      walk_madt_lem cb type arg ram total fuel madt s e es enough sized held same in
    let acpi' : Acpi = record {
      rsdp = acpi.rsdp;
      sdt = acpi.sdt;
      sdt_entries = acpi.sdt_entries;
      madt = some madt;
    } in
    elim located [
      | inl known ↦ (acpi', s', r, rw (known, run) refl, refl, walked)
      | inr (unknown, found) ↦ (acpi', s', r, rw (unknown, found, run) refl, refl, walked)
    ]
