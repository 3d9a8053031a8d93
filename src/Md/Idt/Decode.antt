-- ===== src/Md/Idt/Decode.antt =====
-- What the processor reads from a gate, as two words of 64 bits.
use mathlib.Core.Path.{subst, sym}
use open_modality.Base.{
  ℕ, ◌+◌, ◌*◌, ◌/◌, ◌%◌, ◌^◌, ◌<◌, ◌≡◌, ◌≢◌, ◌⊎◌, inl, inr, true, false, refl, arith,
}
use open_modality.Base.Bits.{bit_and_low}
use open_modality.Base.Tests.{◌==◌, if◌then◌else◌}
use open_modality.Base.Words.{u8}
use open_modality.Md.Idt.{
  idt_int_gate, idt_trap_gate, idt_user_gate, gdt_kcode, IdtGate, idt_gate, md_idt_set,
}

-- The layout of the structure in memory.
abbrev pub low_word : IdtGate → ℕ
low_word g =
    g.offset_low
    + 2 ^ 16 * g.target_cs
    + 2 ^ 32 * (g.ist + 2 ^ 3 * g.zero_bits)
    + 2 ^ 40 * (g.type + 2 ^ 4 * g.zero1 + 2 ^ 5 * g.dpl + 2 ^ 7 * g.p)
    + 2 ^ 48 * g.offset_mid

abbrev pub high_word : IdtGate → ℕ
high_word g = g.offset_high + 2 ^ 32 * g.reserved

-- The gate as the processor reads it: the handler's address in three parts, the selector, the stack,
-- and the byte of type, privilege and presence.
pub record Decoded (low high isr selector stack access : ℕ) : Type 0 where
  pub at_handler : low % 2 ^ 16 + 2 ^ 16 * (low / 2 ^ 48) + 2 ^ 32 * (high % 2 ^ 32) ≡ isr
  pub at_selector : low / 2 ^ 16 % 2 ^ 16 ≡ selector
  pub at_stack : low / 2 ^ 32 % 2 ^ 8 ≡ stack
  pub at_access : low / 2 ^ 40 % 2 ^ 8 ≡ access

abbrev pub IsGateType : ℕ → Type 0
IsGateType type = (type ≡ idt_int_gate) ⊎ ((type ≡ idt_trap_gate) ⊎ (type ≡ idt_user_gate))

-- The words of a gate whose parts are known.
decode :
    (a b c field ist type dpl isr access : ℕ)
    → a ≡ isr % 2 ^ 16
    → b ≡ isr / 2 ^ 16 % 2 ^ 16
    → c ≡ isr / 2 ^ 32
    → isr < 2 ^ 64
    → field ≡ ist
    → ist < 8
    → type < 16
    → dpl < 4
    → access ≡ type + 2 ^ 5 * dpl + 2 ^ 7
    → Decoded
        (a
          + 2 ^ 16 * gdt_kcode
          + 2 ^ 32 * (field + 2 ^ 3 * 0)
          + 2 ^ 40 * (type + 2 ^ 4 * 0 + 2 ^ 5 * dpl + 2 ^ 7 * 1)
          + 2 ^ 48 * b)
        (c + 2 ^ 32 * 0)
        isr
        gdt_kcode
        ist
        access
decode a b c field ist type dpl isr access ea eb ec small same stack nibble ring byte = record {
  at_handler = omega arith;
  at_selector = omega arith;
  at_stack = omega arith;
  at_access = omega arith;
}

access_byte :
    (type : ℕ)
    → IsGateType type
    → type ≡ type % 2 ^ 4 + 2 ^ 5 * (if type == idt_user_gate then 3 else 0) + 2 ^ 7
access_byte type kind = elim kind [
  | inl int ↦ rw int refl
  | inr (inl trap) ↦ rw trap refl
  | inr (inr user) ↦ rw user refl
]

idt_gate-Decoded :
    (type isr ist : ℕ)
    → IsGateType type
    → isr < 2 ^ 64
    → ist < 8
    → Decoded
        (low_word (idt_gate type isr ist))
        (high_word (idt_gate type isr ist))
        isr
        gdt_kcode
        ist
        type
unfolding idt_gate
idt_gate-Decoded type isr ist kind small stack =
    let low = bit_and_low 16 isr in
    let mid = bit_and_low 16 (isr / 2 ^ 16) in
    let high = bit_and_low 32 (isr / 2 ^ 32) in
    decode _ _ _ (ist % 2 ^ 3) ist (type % 2 ^ 4) (if type == idt_user_gate then 3 else 0) isr type
      (omega arith) (omega arith) (omega arith) small (omega arith) stack (omega arith)
      (ground arith) (access_byte type kind)

module _ (idt : ℕ → IdtGate) (vector type isr ist : ℕ) (small : vector < 2 ^ 8) where
  md_idt_set-here :
      type < 2 ^ 8 → ist < 2 ^ 8 → md_idt_set idt vector type isr ist vector ≡ idt_gate type isr ist
  unfolding md_idt_set
  md_idt_set-here type_small ist_small =
      let byte : u8 vector ≡ vector = omega arith in
      let type_byte : u8 type ≡ type = omega arith in
      let ist_byte : u8 ist ≡ ist = omega arith in
      let same : (vector == vector) ≡ true = ground arith in
      rw (byte, type_byte, ist_byte, same) refl

  md_idt_set-other : (v : ℕ) → v ≢ vector → md_idt_set idt vector type isr ist v ≡ idt v
  unfolding md_idt_set
  md_idt_set-other v ne =
      let byte : u8 vector ≡ vector = omega arith in
      let differs : (v == vector) ≡ false = ground arith in rw (byte, differs) refl

-- For a vector of eight bits, a handler's address of 64, one of the three types of gates and one of the
-- eight stacks, the processor reads from the gate that `md_idt_set` has written exactly that handler in
-- the kernel's code segment, that stack, and as its byte of type, privilege and presence the type; the
-- other gates are as before.
pub md_idt_set_lem :
    (idt : ℕ → IdtGate) (vector type isr ist : ℕ)
    → vector < 2 ^ 8
    → IsGateType type
    → isr < 2 ^ 64
    → ist < 8
    → Decoded
        (low_word (md_idt_set idt vector type isr ist vector))
        (high_word (md_idt_set idt vector type isr ist vector))
        isr
        gdt_kcode
        ist
        type
      × ((v : ℕ) → v ≢ vector → md_idt_set idt vector type isr ist v ≡ idt v)
md_idt_set_lem idt vector type isr ist small kind address stack =
    let type_small : type < 2 ^ 8 = ground arith in
    let here = md_idt_set-here idt vector type isr ist small type_small (omega arith) in
    (
      subst (λ g. Decoded (low_word g) (high_word g) isr gdt_kcode ist type) (sym here)
          (idt_gate-Decoded type isr ist kind address stack),
      md_idt_set-other idt vector type isr ist small,
    )
