-- ===== src/Acpi/Tables/Checksum.antt =====
-- The checksum of a table that memory holds.
use mathlib.Core.Path.{subst}
use open_modality.Base.{
  ℕ, ◌+◌, ◌-◌, ◌%◌, ◌^◌, ◌<◌, ◌≡◌, ◌∙◌, refl, sym, ap, List, [], ◌∷◌, ◌++◌, arith,
}
use open_modality.Base.Tests.{◌==◌, if◌then◌else◌}
use open_modality.Base.Bytes.{to_bytes}
use open_modality.Base.Lists.{length, length-append}
use open_modality.Base.Ram.{Ram, Holds, read_int-Holds, Holds-append-left, Holds-append-right}
use open_modality.Base.Run.{done}
use open_modality.Base.Words.{u8}
use open_modality.Acpi.Tables.{header_length, checksum_loop, acpi_checksum}

-- The bytes of a table: the signature, the length of the whole, and the rest.
pub record Table : Type 0 where
  pub signature : List ℕ
  pub rest : List ℕ
  pub signature_size : length signature ≡ 4
  pub small : 8 + length rest < 2 ^ 31

abbrev pub table_length : Table → ℕ
table_length t = 8 + length t.rest

abbrev pub table_bytes : Table → List ℕ
table_bytes t = t.signature ++ (to_bytes 4 (table_length t) ++ t.rest)

abbrev pub sum : List ℕ → ℕ
sum [] = 0
sum (x ∷ xs) = x + sum xs

length-table_bytes : (t : Table) → length (table_bytes t) ≡ table_length t
length-table_bytes t =
    let four = t.signature_size in
    omega (arith, length-append t.signature (to_bytes 4 (table_length t) ++ t.rest))

checksum_loop-Holds :
    (ram : Ram) (hdr i csum : ℕ) (bs : List ℕ)
    → Holds ram (hdr + i) bs
    → csum < 256
    → checksum_loop (length bs) i csum hdr ram ≡ done ((csum + sum bs) % 256)
unfolding checksum_loop
checksum_loop-Holds ram hdr i csum [] held small = ap done (omega arith)
checksum_loop-Holds ram hdr i csum (b ∷ bs) (here, held) small =
    let next : Holds ram (hdr + (i + 1)) bs =
      let same : hdr + i + 1 ≡ hdr + (i + 1) = omega arith in
      subst (λ a. Holds ram a bs) same held in
    let ih = checksum_loop-Holds ram hdr (i + 1) (u8 (csum + b)) bs next (omega arith) in
    rw (here, ih) (ap done (omega arith))

length-Holds :
    (t : Table) (ram : Ram) (hdr : ℕ)
    → Holds ram hdr (table_bytes t)
    → header_length ram hdr ≡ done (table_length t)
length-Holds t ram hdr held =
    let four = t.signature_size in
    let behind : Holds ram (hdr + 4) (to_bytes 4 (table_length t) ++ t.rest) =
      Holds-append-right ram hdr (hdr + 4) t.signature (to_bytes 4 (table_length t) ++ t.rest)
        (omega arith) held in
    let small = t.small in
    read_int-Holds ram 4 (table_length t) (hdr + 4) (omega arith)
      (Holds-append-left ram (hdr + 4) (to_bytes 4 (table_length t)) t.rest behind)

-- The checksum of a table in memory is zero exactly when its bytes add up to zero modulo 256, and -1
-- else.
pub acpi_checksum_lem :
    (t : Table) (ram : Ram) (hdr : ℕ)
    → Holds ram hdr (table_bytes t)
    → acpi_checksum ram hdr ≡ done (if sum (table_bytes t) % 256 == 0 then 0 else 2 ^ 32 - 1)
unfolding acpi_checksum
acpi_checksum_lem t ram hdr held =
    let whole : Holds ram (hdr + 0) (table_bytes t) =
      let same : hdr ≡ hdr + 0 = omega arith in
      subst (λ a. Holds ram a (table_bytes t)) same held in
    let summed : checksum_loop (table_length t) 0 0 hdr ram ≡ done (sum (table_bytes t) % 256) =
      ap (λ n. checksum_loop n 0 0 hdr ram) (sym (length-table_bytes t))
      ∙ checksum_loop-Holds ram hdr 0 0 (table_bytes t) whole (omega arith)
      ∙ ap done (omega arith) in
    rw (length-Holds t ram hdr held, summed) refl
