-- ===== src/Mm/Pmem/Probe.antt =====
-- The loops of `mm_pmem_init` over the memory map: with one round of fuel more than there are
-- entries they see every entry once, in order.
use open_modality.Base.{
  ℕ, zero, suc, ◌+◌, ◌-◌, ◌*◌, ◌/◌, ◌^◌, ◌≤◌, ◌<◌, ◌≡◌, inl, inr, ◌∙◌, refl, ap, Bool, true, false,
  ◌&&◌, ◌||◌, List, [], ◌∷◌, ◌++◌, append_assoc, arith,
}
use open_modality.Base.Tests.{if◌then◌else◌, Bool-cases}
use open_modality.Base.Lists.{length, All, length-append}
use open_modality.Base.Run.{Run, done}
use open_modality.Base.Words.{u64}
use open_modality.Core.Bpt
use open_modality.Core.Bpt.{MemType, MemEntry, Hooks}
use open_modality.Core.Bpt.Laws.{Serves, entry_at}
use open_modality.Mm.Bitmap.Bytes.{bit_at, IsBytes}
use open_modality.Mm.Bitmap.Range.{within, bitmap_set_range-IsMarked}
use open_modality.Mm.Pmem.{State, is_usable, count_entry, probe_loop, fill_loop}

-- Reading behind a prefix of the map.
entry-behind : (pre rest : List MemEntry) → entry_at (pre ++ rest) (length pre) ≡ entry_at rest 0
entry-behind [] rest = refl
entry-behind (e ∷ pre) rest = entry-behind pre rest

-- The whole map counted.
unfoldable pub count_all : List MemEntry → State → State
count_all [] s = s
count_all (e ∷ es) s = count_all es (count_entry e s)

module _ (hooks : Hooks) where
  pub read-behind :
      (pre rest : List MemEntry)
      → Serves hooks (pre ++ rest)
      → Bpt.bpt_get_mementry hooks (length pre) false ≡ done (entry_at rest 0)
  read-behind pre rest serves = serves (length pre) ∙ ap done (entry-behind pre rest)

  -- The next entry joins the prefix.
  pub Serves-next :
      (pre : List MemEntry) (e : MemEntry) (rest : List MemEntry)
      → Serves hooks (pre ++ e ∷ rest)
      → Serves hooks ((pre ++ e ∷ []) ++ rest)
  Serves-next pre e rest serves = rw (append_assoc pre (e ∷ []) rest) serves

  pub length-next : (pre : List MemEntry) (e : MemEntry) → length pre + 1 ≡ length (pre ++ e ∷ [])
  length-next pre e = omega (arith, length-append pre (e ∷ []))

  pub probe_loop-count_all :
      (fuel : ℕ) (pre rest : List MemEntry) (s : State)
      → Serves hooks (pre ++ rest)
      → length rest < fuel
      → probe_loop fuel hooks (length pre) s ≡ done (count_all rest s)
  unfolding probe_loop count_all
  probe_loop-count_all zero pre rest s serves h = absurd (omega arith)
  probe_loop-count_all (suc fuel) pre [] s serves h = rw (read-behind pre [] serves)
  probe_loop-count_all (suc fuel) pre (e ∷ rest) s serves h =
      rw (read-behind pre (e ∷ rest) serves, length-next pre e)
        (probe_loop-count_all fuel (pre ++ e ∷ []) rest (count_entry e s)
          (Serves-next pre e rest serves) (omega arith))

-- The first frame of an entry that counts, and the first behind it.
abbrev pub first_frame : MemEntry → ℕ
first_frame e = (e.base + 4095) / 4096

abbrev pub end_frame : MemEntry → ℕ
end_frame e = (e.base + e.length + 4095) / 4096

-- Frame `j` belongs to a usable entry of the map.
unfoldable pub usable_frame : List MemEntry → ℕ → Bool
usable_frame [] j = false
usable_frame (e ∷ es) j =
    (is_usable e.type && within (first_frame e) (end_frame e) j) || usable_frame es j

-- The entries end below the last page of the address space.
abbrev pub InRange : List MemEntry → Type 0
InRange = All (λ e. e.base + e.length ≤ 2 ^ 64 - 4096)

-- Every usable frame of the map has its bit in a bitmap of `size` bytes.
abbrev pub Covered : ℕ → List MemEntry → Type 0
Covered size = All (λ e. is_usable e.type ≡ true → end_frame e ≤ 8 * size)

-- The outcome of clearing the bits of all usable entries.
pub record IsFilled (entries : List MemEntry) (a : List ℕ) (run : Run (List ℕ)) : Type 0 where
  pub out : List ℕ
  pub returns : run ≡ done out
  pub same_length : length out ≡ length a
  pub bytes : IsBytes out
  pub bits : (j : ℕ) → bit_at out j ≡ (if usable_frame entries j then false else bit_at a j)

module _ (hooks : Hooks) where
  pub fill_loop-IsFilled :
      (fuel : ℕ) (pre rest : List MemEntry) (a : List ℕ)
      → Serves hooks (pre ++ rest)
      → length rest < fuel
      → InRange rest
      → Covered (length a) rest
      → IsBytes a
      → IsFilled rest a (fill_loop fuel hooks (length pre) a)
  unfolding fill_loop usable_frame
  fill_loop-IsFilled zero pre rest a serves h in_range cov bytes = absurd (omega arith)
  fill_loop-IsFilled (suc fuel) pre [] a serves h in_range cov bytes = record {
    out = a;
    returns = rw (read-behind hooks pre [] serves);
    same_length = refl;
    bytes = bytes;
    bits = λ j. refl;
  }
  fill_loop-IsFilled (suc fuel) pre (e ∷ rest) a serves h (le, in_range) (cov, covs) bytes =
      elim (Bool-cases (is_usable e.type)) [
        | inr skip ↦
            let next =
              fill_loop-IsFilled fuel (pre ++ e ∷ []) rest a (Serves-next hooks pre e rest serves)
                (omega arith) in_range covs bytes in
            record {
              out = next.out;
              returns =
                  rw (read-behind hooks pre (e ∷ rest) serves, length-next hooks pre e, skip)
                    next.returns;
              same_length = next.same_length;
              bytes = next.bytes;
              bits = λ j. rw skip (next.bits j);
            }
        | inl take_it ↦
            let m =
              bitmap_set_range-IsMarked a e.base (e.base + e.length) false (omega arith) le
                (cov take_it) bytes in
            let whole : u64 (e.base + e.length) ≡ e.base + e.length = omega arith in
            let next =
              fill_loop-IsFilled fuel (pre ++ e ∷ []) rest m.out
                (Serves-next hooks pre e rest serves) (omega arith) in_range (rw m.same_length covs)
                m.bytes in
            record {
              out = next.out;
              returns =
                  rw
                    (
                      read-behind hooks pre (e ∷ rest) serves,
                      length-next hooks pre e,
                      take_it,
                      whole,
                      m.returns,
                    )
                    next.returns;
              same_length = next.same_length ∙ m.same_length;
              bytes = next.bytes;
              bits = λ j. rw take_it (ground (arith, next.bits j, m.bits j));
            }
      ]
