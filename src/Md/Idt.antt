-- ===== src/Md/Idt.antt =====
-- The interrupt descriptor table: sys/hive/arch/amd64/cpu/idt.c and sys/hive/inc/arch/amd64/idt.h.
pub mod Decode
use open_modality.Base.{ℕ, ◌+◌, ◌*◌, ◌/◌, ◌%◌, ◌^◌, bit_and}
use open_modality.Base.Tests.{◌==◌, if◌then◌else◌}
use open_modality.Base.Words.{u8, u16, u32}

abbrev pub idt_int_gate : ℕ
idt_int_gate = 0x8E

abbrev pub idt_trap_gate : ℕ
idt_trap_gate = 0x8F

abbrev pub idt_user_gate : ℕ
idt_user_gate = 0xEE

abbrev pub gdt_kcode : ℕ
gdt_kcode = 0x08

-- `struct idt_gate`: numbers of 16, 16, 3, 5, 4, 1, 2, 1, 16, 32 and 32 bits, the first lowest.
pub record IdtGate : Type 0 where
  pub offset_low : ℕ
  pub target_cs : ℕ
  pub ist : ℕ
  pub zero_bits : ℕ
  pub type : ℕ
  pub zero1 : ℕ
  pub dpl : ℕ
  pub p : ℕ
  pub offset_mid : ℕ
  pub offset_high : ℕ
  pub reserved : ℕ

-- What `md_idt_set` stores in the gate; the other fields are all set.
unfoldable pub idt_gate : ℕ → ℕ → ℕ → IdtGate
idt_gate type isr ist = record {
  offset_low = u16 (bit_and isr 0xFFFF);
  target_cs = gdt_kcode;
  ist = ist % 2 ^ 3;
  zero_bits = 0;
  type = type % 2 ^ 4;
  zero1 = 0;
  dpl = if type == idt_user_gate then 3 else 0;
  p = 1;
  offset_mid = u16 (bit_and (isr / 2 ^ 16) 0xFFFF);
  offset_high = u32 (bit_and (isr / 2 ^ 32) 0xFFFFFFFF);
  reserved = 0;
}

-- The table as its gates by vector; a `uint8_t` is an index of its 256 gates.
unfoldable pub md_idt_set : (ℕ → IdtGate) → ℕ → ℕ → ℕ → ℕ → ℕ → IdtGate
md_idt_set idt vector type isr ist v =
    if v == u8 vector then idt_gate (u8 type) isr (u8 ist) else idt v
