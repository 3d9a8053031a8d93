-- ===== src/Core/Elfload/Verify.antt =====
-- The check of an image's header.
use native.Mathlib.Decide.{ℕ_discrete}
use open_modality.Base.{ℕ, ◌≡◌, ◌↔◌, ◌∙◌, sym, ap, Bool, true, false, some, List, arith}
use open_modality.Base.Lists.{length, take_long}
use open_modality.Base.Ram.{Ram, bytes_at, Holds, bytes_at-Holds}
use open_modality.Base.Run.{Run, done, ◌>>=◌}
use open_modality.Base.Tests.{◌==◌}
use open_modality.Core.Elfload.{elfmag, e_type, e_version, elf_verify}
use open_modality.Sdk.Memory.{Diff, memcmp}
use open_modality.Sdk.Memory.Laws.{memcmp_iff}

module _ (ram : Ram) (eh type version : ℕ) (magic : List ℕ) (size : length magic ≡ 4)
    (held : Holds ram eh magic) (is_type : e_type ram eh ≡ done type)
    (is_version : e_version ram eh ≡ done version) where
  abbrev type_test : Bool → Run Bool
  type_test b = elim b [ false ↦ done false | true ↦ do v ← e_version ram eh; done (v == 1) ]

  abbrev magic_test : Bool → Run Bool
  magic_test b = elim b [ false ↦ done false | true ↦ do t ← e_type ram eh; type_test (t == 2) ]

  verify_steps :
      (d : Diff)
      → memcmp magic elfmag 4 ≡ done d
      → elf_verify ram (some eh) ≡ magic_test (d.size == 0)
  unfolding elf_verify
  verify_steps d run =
      let bytes : bytes_at ram eh 4 ≡ magic =
        bytes_at-Holds ram 4 eh magic (omega arith) held ∙ take_long 4 magic (omega arith) in
      ap (λ m. memcmp m elfmag 4 >>= λ c. magic_test (c.size == 0)) bytes
      ∙ ap (λ r. r >>= λ c. magic_test (c.size == 0)) run

  magic_found : magic_test true ≡ type_test (type == 2)
  magic_found = ap (λ r. r >>= λ t. type_test (t == 2)) is_type

  type_found : type_test true ≡ done (version == 1)
  type_found = ap (λ r. r >>= λ v. done (v == 1)) is_version

  -- The check of a header answers whether it is that of an executable file of the current version.
  pub elf_verify_lem :
      (valid : Bool) × (elf_verify ram (some eh) ≡ done valid)
      × ((valid ≡ true) ↔ ((magic ≡ elfmag) × (type ≡ 2) × (version ≡ 1)))
  elf_verify_lem =
      let (d, run, (same, eq)) = memcmp_iff magic elfmag 4 (omega arith) (omega arith) in
      let all = take_long 4 magic (omega arith) in
      let steps = verify_steps d run in
      elim (ℕ_discrete d.size 0) [
        | no other ↦
            let test : d.size == 0 ≡ false = ground arith in
            (
              false,
              steps ∙ ap magic_test test,
              ((λ e. cc), (λ (m, t, v). absurd (other (eq (all ∙ m))))),
            )
        | yes z ↦
            let test : d.size == 0 ≡ true = ground arith in
            let found = steps ∙ ap magic_test test ∙ magic_found in
            elim (ℕ_discrete type 2) [
              | no other ↦
                  let test2 : type == 2 ≡ false = ground arith in
                  (false, found ∙ ap type_test test2, ((λ e. cc), (λ (m, t, v). absurd (other t))))
              | yes two ↦
                  let test2 : type == 2 ≡ true = ground arith in
                  (
                    version == 1,
                    found ∙ ap type_test test2 ∙ type_found,
                    ((λ e. (sym all ∙ same z, two, ground arith)), (λ (m, t, v). ground arith)),
                  )
            ]
      ]
