-- ===== src/Tests/Machine.antt =====
-- Descriptors and the pool allocator.
use open_modality.Base.{ℕ, ◌+◌, ◌*◌, ◌≡◌, ◌≢◌, refl, inr, true, false, Option, none, some, arith}
use open_modality.Base.Lists.{replicate}
use open_modality.Base.Result.{ok}
use open_modality.Base.Run.{Run, done}
use open_modality.Core.Bpt.{Hooks, bpt_kernel_base, bpt_get_vars}
use open_modality.Md.Idt.{idt_user_gate, gdt_kcode, IdtGate, md_idt_set}
use open_modality.Md.Idt.Decode.{low_word, high_word, Decoded, md_idt_set_lem}
use open_modality.Md.Tss.{TssDesc, World, md_tss_init}
use open_modality.Md.Tss.Decode.{SetUp, md_tss_init_lem}
use open_modality.Os.Pool.{Pool}

abbrev gates : ℕ → IdtGate
gates v = record {
  offset_low = 0;
  target_cs = 0;
  ist = 0;
  zero_bits = 0;
  type = 0;
  zero1 = 0;
  dpl = 0;
  p = 0;
  offset_mid = 0;
  offset_high = 0;
  reserved = 0;
}

md_idt_set_lem_example :
    Decoded
      (low_word (md_idt_set gates 128 idt_user_gate 0xFFFFFFFF80201234 0 128))
      (high_word (md_idt_set gates 128 idt_user_gate 0xFFFFFFFF80201234 0 128))
      0xFFFFFFFF80201234
      gdt_kcode
      0
      idt_user_gate
    × ((v : ℕ) → v ≢ 128 → md_idt_set gates 128 idt_user_gate 0xFFFFFFFF80201234 0 v ≡ gates v)
md_idt_set_lem_example =
    md_idt_set_lem gates 128 idt_user_gate 0xFFFFFFFF80201234 0 (omega arith) (inr (inr refl))
      (omega arith) (omega arith)

abbrev no_desc : TssDesc
no_desc = record {
  seglim_low = 0;
  base_low = 0;
  base_mid = 0;
  type = 0;
  zero_bit = 0;
  dpl = 0;
  p = 0;
  seglim_high = 0;
  avl = 0;
  zero1 = 0;
  gran = 0;
  base_mid1 = 0;
  base_high = 0;
  reserved = 0;
  zero2 = 0;
  reserved1 = 0;
}

-- The pool is the next address that it gives; every object has 104 bytes.
abbrev world : World ℕ
world = record { pool = 4096; object = λ a. replicate 104 7; desc = no_desc; task_register = 0 }

abbrev bump : ℕ → ℕ → Run (ℕ × Option ℕ)
bump next size = done (next + size, some next)

md_tss_init_lem_example :
    (w' : World ℕ) × (md_tss_init bump none false world ≡ done (w', ok 0))
    × SetUp 4096 4200 world w'
md_tss_init_lem_example =
    md_tss_init_lem bump none world 4096 4200 (inr (refl, refl)) (omega arith) (omega arith) refl

-- A TLSF allocator that never reuses memory.
abbrev malloc : Option ℕ → ℕ → Run (Option ℕ × ℕ)
malloc ctx size = elim ctx [ none ↦ done (none, 0) | some next ↦ done (some (next + size), next) ]

abbrev free : Option ℕ → ℕ → Run (Option ℕ)
free ctx a = done ctx

abbrev some_pool : Pool ℕ
some_pool = record {
  is_init = true;
  pool_virt_base = 4096;
  pool_pma = 4096;
  spin_lock = 0;
  tlsf_ctx = some 4096;
  irq = true;
}

abbrev create : ℕ → ℕ → Run (Option ℕ)
create base size = done (some base)

abbrev new_pool : Pool ℕ
new_pool = record {
  is_init = false;
  pool_virt_base = 0;
  pool_pma = 0;
  spin_lock = 0;
  tlsf_ctx = none;
  irq = true;
}

abbrev frames : ℕ → ℕ → Run (ℕ × ℕ)
frames next count = done (next + count * 4096, next)

abbrev direct : Hooks
direct = record {
  get_vars = some (λ res_null. done (ok (record { kernel_base = 16; rsdp_base = 0 })));
  get_mementry = none;
  get_module = none;
}

direct-base : bpt_kernel_base direct ≡ done 16
unfolding bpt_kernel_base bpt_get_vars
direct-base = refl
