-- ===== src/Core/Elfload/Round.antt =====
-- The loop over the program headers, on each outcome of a round.
use open_modality.Base.{
  ℕ, suc, ◌+◌, ◌*◌, ◌^◌, ◌<◌, ◌≤◌, ◌≡◌, ◌∙◌, refl, ap, Bool, true, false, arith,
}
use open_modality.Base.Result.{Errno, Result, ok, err}
use open_modality.Base.Run.{Run, done, ◌>>=◌}
use open_modality.Base.Tests.{ltb}
use open_modality.Base.Words.{u64}
use open_modality.Core.Bpt.{Hooks}
use open_modality.Core.Elfload.{
  Phdr, Loader, read_phdr, e_phnum, e_phentsize, phdr_index, load_segment, load_round, load_loop,
}

phdr_index_lem :
    (at entsize i : ℕ)
    → entsize * i < 2 ^ 31
    → phdr_index at entsize i ≡ done (u64 (at + entsize * i))
unfolding phdr_index
phdr_index_lem at entsize i h =
    let test : ltb (entsize * i) (2 ^ 31) ≡ true = ground arith in rw test refl

module _ {S : Type 0} (mm_pmem_alloc : S → ℕ → Run (S × ℕ)) (hooks : Hooks)
    (map_fuel cr4 cr3 eh : ℕ) where
  -- The loop, on each outcome of a round.
  module _ (fuel at i phnum : ℕ) (l : Loader S) (count : e_phnum l.ram eh ≡ done phnum) where
    abbrev loop : ℕ → ℕ → Loader S → Run (Loader S × Result ℕ)
    loop f j k = load_loop mm_pmem_alloc hooks map_fuel cr4 cr3 f at j eh k

    abbrev round : Run (Loader S × Result ℕ)
    round = load_round mm_pmem_alloc hooks map_fuel cr4 cr3 at i eh l

    abbrev after_test : Bool → Run (Loader S × Result ℕ)
    after_test b = elim b [
      | false ↦ done (l, ok 0)
      | true ↦ do
        (l', error) ← round
        elim error [ err e ↦ done (l', err e) | ok z ↦ loop fuel (i + 1) l' ]
    ]

    loop-test : (b : Bool) → ltb i phnum ≡ b → loop (suc fuel) i l ≡ after_test b
    unfolding load_loop
    loop-test b e = ap (λ r. r >>= λ n. after_test (ltb i n)) count ∙ ap after_test e

    pub loop-end : phnum ≤ i → loop (suc fuel) i l ≡ done (l, ok 0)
    loop-end h = let test : ltb i phnum ≡ false = ground arith in loop-test false test

    pub loop-next :
        (l' : Loader S)
        → i < phnum
        → round ≡ done (l', ok 0)
        → loop (suc fuel) i l ≡ loop fuel (i + 1) l'
    loop-next l' h e =
        let test : ltb i phnum ≡ true = ground arith in loop-test true test ∙ rw e refl

    pub loop-stop :
        (l' : Loader S) (e : Errno)
        → i < phnum
        → round ≡ done (l', err e)
        → loop (suc fuel) i l ≡ done (l', err e)
    loop-stop l' c h e =
        let test : ltb i phnum ≡ true = ground arith in loop-test true test ∙ rw e refl

    pub round_lem :
        (entsize : ℕ) (p : Phdr)
        → e_phentsize l.ram eh ≡ done entsize
        → entsize * i < 2 ^ 31
        → read_phdr l.ram (u64 (at + entsize * i)) ≡ done p
        → round ≡ load_segment mm_pmem_alloc hooks map_fuel cr4 cr3 eh p l
    unfolding load_round
    round_lem entsize p e small held =
        let index : phdr_index at entsize i ≡ done (u64 (at + entsize * i)) =
          phdr_index_lem at entsize i small in
        ap
          (λ r. r >>= λ n.
            (phdr_index at n i >>= λ h.
            (read_phdr l.ram h >>= λ q. load_segment mm_pmem_alloc hooks map_fuel cr4 cr3 eh q l)))
          e
        ∙ ap
            (λ r. r >>= λ h.
              (read_phdr l.ram h >>= λ q. load_segment mm_pmem_alloc hooks map_fuel cr4 cr3 eh q l))
            index
        ∙ ap (λ r. r >>= λ q. load_segment mm_pmem_alloc hooks map_fuel cr4 cr3 eh q l) held
