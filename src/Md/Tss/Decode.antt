-- ===== src/Md/Tss/Decode.antt =====
-- What the processor reads from the descriptor of the task state segment.
use open_modality.Base.{
  ℕ, ◌+◌, ◌*◌, ◌/◌, ◌^◌, ◌<◌, ◌≤◌, ◌≡◌, ◌≢◌, ◌⊎◌, inl, inr, ◌∙◌, refl, true, false, Option, none,
  some, ◌++◌, arith,
}
use open_modality.Base.Bits.{bit_and_low}
use open_modality.Base.Lists.{length, replicate, drop}
use open_modality.Base.Result.{ok}
use open_modality.Base.Run.{Run, done}
use open_modality.Base.Tests.{◌==◌, leb, if◌then◌else◌}
use open_modality.Sdk.Memory.Laws.{memset_lem}
use open_modality.Md.Tss.{tss_entry_size, TssDesc, World, fill_desc, ltr, set_tss, md_tss_init}

-- The descriptor as the processor reads it: the segment's address in four parts, and the byte of type,
-- privilege and presence, of a segment that is in use; the limit is what it was.
pub record Describes (base : ℕ) (before d : TssDesc) : Type 0 where
  pub at_base :
      d.base_low + 2 ^ 16 * d.base_mid + 2 ^ 24 * d.base_mid1 + 2 ^ 32 * d.base_high ≡ base
  pub at_access : d.type + 2 ^ 4 * d.zero_bit + 2 ^ 5 * d.dpl + 2 ^ 7 * d.p ≡ 0x8B
  pub same_limit : (d.seglim_low ≡ before.seglim_low) × (d.seglim_high ≡ before.seglim_high)

ltr-fill_desc :
    (base : ℕ) (d : TssDesc)
    → d.zero_bit ≡ 0
    → ltr (fill_desc base d) ≡ done (record (fill_desc base d) { type = 0xB })
unfolding ltr fill_desc
ltr-fill_desc base d system = let test : d.zero_bit == 0 ≡ true = ground arith in rw test refl

fill_desc-Describes :
    (base : ℕ) (d : TssDesc)
    → base < 2 ^ 64
    → d.zero_bit ≡ 0
    → Describes base d (record (fill_desc base d) { type = 0xB })
unfolding fill_desc
fill_desc-Describes base d small system =
    let low = bit_and_low 16 base in
    let mid = bit_and_low 8 (base / 2 ^ 16) in
    let mid1 = bit_and_low 8 (base / 2 ^ 24) in
    let high = bit_and_low 32 (base / 2 ^ 32) in
    record { at_base = omega arith; at_access = omega arith; same_limit = (refl, refl) }

-- A call that has set up the segment at an address.
pub record SetUp {ℓ} {S : Type ℓ} (base : ℕ) (pool : S) (w w' : World S) : Type ℓ where
  pub pool_lem : w'.pool ≡ pool
  pub cleared : w'.object base ≡ replicate tss_entry_size 0 ++ drop tss_entry_size (w.object base)
  pub kept : (a : ℕ) → a ≢ base → w'.object a ≡ w.object a
  pub described : Describes base w.desc w'.desc
  pub loaded : w'.task_register ≡ 0x2B

module _ {ℓ} {S : Type ℓ} where
  abbrev after : ℕ → World S → World S
  after base w = record w {
    object = λ a.
        if a == base
        then replicate tss_entry_size 0 ++ drop tss_entry_size (w.object base)
        else w.object a;
    desc = record (fill_desc base w.desc) { type = 0xB };
    task_register = 0x2B;
  }

  set_tss-SetUp :
      (base : ℕ) (w : World S)
      → base < 2 ^ 64
      → tss_entry_size ≤ length (w.object base)
      → w.desc.zero_bit ≡ 0
      → (w' : World S) × (set_tss base w ≡ done (w', ok 0)) × SetUp base w.pool w w'
  unfolding set_tss
  set_tss-SetUp base w small room system =
      let object = w.object base in
      let test : leb tss_entry_size (length object) ≡ true = ground arith in
      let here : (base == base) ≡ true = ground arith in
      (
        after base w,
        rw (memset_lem object 0 tss_entry_size, test, ltr-fill_desc base w.desc system) refl,
        record {
          pool_lem = refl;
          cleared = rw here refl;
          kept = λ a ne. let differs : (a == base) ≡ false = ground arith in rw differs refl;
          described = fill_desc-Describes base w.desc small system;
          loaded = refl;
        },
      )

  -- With the descriptor that the selector names, whose bit above the type is clear, and a segment that
  -- is given or that the pool serves, `md_tss_init` clears the segment and no other object and loads
  -- the task register with the selector; the processor reads from the descriptor the segment's address
  -- and the byte of a busy segment for the kernel, and the limit stays as it was.
  pub md_tss_init_lem :
      (os_pool_allocate : S → ℕ → Run (S × Option ℕ)) (tss : Option ℕ) (w : World S) (base : ℕ)
      (pool : S)
      → ((tss ≡ some base) × (w.pool ≡ pool))
        ⊎ ((tss ≡ none) × (os_pool_allocate w.pool tss_entry_size ≡ done (pool, some base)))
      → base < 2 ^ 64
      → tss_entry_size ≤ length (w.object base)
      → w.desc.zero_bit ≡ 0
      → (w' : World S) × (md_tss_init os_pool_allocate tss false w ≡ done (w', ok 0))
        × SetUp base pool w w'
  unfolding md_tss_init
  md_tss_init_lem os_pool_allocate tss w base pool located small room system = elim located [
    | inl (given, same) ↦
        let (w', run, set) = set_tss-SetUp base w small room system in
        (
          w',
          rw given run,
          record {
            pool_lem = set.pool_lem ∙ same;
            cleared = set.cleared;
            kept = set.kept;
            described = set.described;
            loaded = set.loaded;
          },
        )
    | inr (absent, served) ↦
        let (w', run, set) = set_tss-SetUp base (record w { pool = pool }) small room system in
        (
          w',
          rw (absent, served) run,
          record {
            pool_lem = set.pool_lem;
            cleared = set.cleared;
            kept = set.kept;
            described = set.described;
            loaded = set.loaded;
          },
        )
  ]
