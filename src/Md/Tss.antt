-- ===== src/Md/Tss.antt =====
-- The task state segment: sys/hive/arch/amd64/cpu/tss.c and sys/hive/inc/arch/amd64/tss.h. The pool
-- allocator is a parameter: it gives an address or null.
pub mod Decode
use open_modality.Base.{
  ℕ, ◌+◌, ◌/◌, ◌^◌, Bool, true, false, ◌&&◌, bit_and, bit_or, Option, none, some, List,
}
use open_modality.Base.Tests.{◌==◌, if◌then◌else◌}
use open_modality.Base.Result.{minus_one, einval, Result, ok, err}
use open_modality.Base.Run.{Run, done, fault, ◌>>=◌}
use open_modality.Base.Words.{u8, u16, u32}
use open_modality.Sdk.Memory.{memset}

abbrev pub gdt_tss : ℕ
gdt_tss = 0x28

-- `sizeof(struct tss_entry)`
abbrev pub tss_entry_size : ℕ
tss_entry_size = 104

-- The fields of `struct tss_desc` that say where the segment lies and what it is, and those that
-- `md_tss_init` leaves alone: its limit and the rest.
pub record TssDesc : Type 0 where
  pub seglim_low : ℕ
  pub base_low : ℕ
  pub base_mid : ℕ
  pub type : ℕ
  pub zero_bit : ℕ
  pub dpl : ℕ
  pub p : ℕ
  pub seglim_high : ℕ
  pub avl : ℕ
  pub zero1 : ℕ
  pub gran : ℕ
  pub base_mid1 : ℕ
  pub base_high : ℕ
  pub reserved : ℕ
  pub zero2 : ℕ
  pub reserved1 : ℕ

-- What the function works on: the pool, the bytes of the object at an address, the descriptor, and
-- the processor's task register.
pub record World {ℓ} (S : Type ℓ) : Type ℓ where
  pub pool : S
  pub object : ℕ → List ℕ
  pub desc : TssDesc
  pub task_register : ℕ

unfoldable pub fill_desc : ℕ → TssDesc → TssDesc
fill_desc base desc = record desc {
  base_low = u16 (bit_and base 0xFFFF);
  base_mid = u8 (bit_and (base / 2 ^ 16) 0xFF);
  base_mid1 = u8 (bit_and (base / 2 ^ 24) 0xFF);
  base_high = u32 (bit_and (base / 2 ^ 32) 0xFFFFFFFF);
  avl = 0;
  dpl = 0;
  p = 1;
  type = 0x9;
}

-- `ltr` on the selector of a descriptor: it must be that of an available segment that is present, and
-- becomes that of a busy one.
unfoldable pub ltr : TssDesc → Run TssDesc
ltr desc =
    if desc.type == 0x9 && desc.zero_bit == 0 && desc.p == 1
    then done (record desc { type = 0xB })
    else fault

-- The descriptor given is the one that the selector names, as locore.S passes it.
module _ {ℓ} {S : Type ℓ} where
  -- From the `memset` on.
  unfoldable pub set_tss : ℕ → World S → Run (World S × Result ℕ)
  set_tss tss w = do
    bytes ← memset (w.object tss) 0 tss_entry_size
    desc ← ltr (fill_desc tss w.desc)
    done (
      record w {
        object = λ a. if a == tss then bytes else w.object a;
        desc = desc;
        task_register = bit_or gdt_tss 3;
      },
      ok 0,
    )

  -- A null `tss` is `none`; the Boolean says whether `desc` is null.
  unfoldable pub md_tss_init :
      (S → ℕ → Run (S × Option ℕ)) → Option ℕ → Bool → World S → Run (World S × Result ℕ)
  md_tss_init os_pool_allocate tss true w = done (w, err einval)
  md_tss_init os_pool_allocate (some tss) false w = set_tss tss w
  md_tss_init os_pool_allocate none false w = do
    (pool, tss) ← os_pool_allocate w.pool tss_entry_size
    elim tss [
      | none ↦ done (record w { pool = pool }, err minus_one)
      | some a ↦ set_tss a (record w { pool = pool })
    ]
