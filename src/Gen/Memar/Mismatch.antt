-- ===== src/Gen/Memar/Mismatch.antt =====
-- The archive that gen/memar/memar.c writes against the reader of sys/hive/core/initrd.c: the
-- reader expects a byte with the length of the name, which the archiver does not write, and does
-- not skip the padding.
use open_modality.Base.{
  ℕ, zero, suc, ◌+◌, ◌^◌, ◌<◌, ◌≡◌, ◌≢◌, ◌∙◌, refl, ap, false, ◌||◌, Option, none, some, List, [],
  ◌∷◌, ◌++◌, arith,
}
use open_modality.Base.Tests.{◌==◌, leb, if◌then◌else◌, Option-cases}
use open_modality.Base.Lists.{
  length, take, drop, replicate, All, length-append, drop-append, drop-all, drop-add, take-add,
  take-append,
}
use open_modality.Base.Run.{Run, done}
use open_modality.Base.Bytes.{to_bytes, read_word-to_bytes}
use open_modality.Base.Words.{u64, u8, sub64, align_up}
use open_modality.Sdk.Memory.{memcmp, memcpy, Diff, diff}
use open_modality.Sdk.Memory.Laws.{memcpy_lem}
use open_modality.Sdk.Str.{strlen, c_str}
use open_modality.Sdk.Str.Laws.{strlen_lem, c_str-terminated}
use open_modality.Core.Initrd.{
  hdr_size, file_size, fname_size, lookup_loop, skip_slash, initrd_lookup,
}
use open_modality.Core.Initrd.Laws.{relative}
use open_modality.Gen.Memar.{FileHdr, skip_root, next, file_hdr_init, header_image, write_file}

-- What the archive holds for a file.
abbrev pub memar_entry : List ℕ → List ℕ → List ℕ
memar_entry name contents =
    b'L'
    ∷ b'O'
    ∷ b'R'
    ∷ b'D'
    ∷ (to_bytes 8 (20 + length name)
        ++ (to_bytes 8 (length contents)
            ++ (name
                ++ (contents
                    ++ replicate (u8 (sub64 (align_up (length contents) 8) (length contents))) 0))))

skip_root-slash :
    (root rest : List ℕ)
    → All (λ c. (c == b'/' || c == 0) ≡ false) root
    → skip_root (root ++ b'/' ∷ rest) ≡ done (b'/' ∷ rest)
unfolding skip_root
skip_root-slash [] rest h = refl
skip_root-slash (c ∷ root) rest (other, h) = rw (other, skip_root-slash root rest h) refl

-- A comparison of at least one byte tells strings apart that begin differently.
compare_first :
    (n a : ℕ) (s path : List ℕ) {p : ℕ} {ps : List ℕ}
    → n ≢ 0
    → c_str path ≡ some (p ∷ ps)
    → a ≢ p
    → (e : Diff) × (memcmp (a ∷ s) path n ≡ done e) × ((e.size == 0) ≡ false)
unfolding memcmp c_str
compare_first zero a s path nz str ne = absurd (nz refl)
compare_first (suc n) a s [] nz str ne = cc
compare_first (suc n) a s (b ∷ path) {p} nz str ne =
    let first : b ≡ p = ground (arith, Option-cases (c_str path)) in
    (diff a b, ground arith, ground arith)

-- Zero bytes are no header.
lookup_loop-zeros :
    (fuel at k : ℕ) (path : List ℕ) → lookup_loop (suc fuel) at (replicate k 0) path ≡ done none
unfolding lookup_loop memcmp
lookup_loop-zeros fuel at zero path = refl
lookup_loop-zeros fuel at (suc k) path = refl

module _ (garbage : FileHdr) (four : length garbage.magic ≡ 4) (room : length garbage.name ≡ 99)
    (root name contents : List ℕ) (in_root : All (λ c. (c == b'/' || c == 0) ≡ false) root)
    (chars : All (λ c. c ≢ 0) name) (short : length name < 98) where
  abbrev full_path : List ℕ
  full_path = root ++ b'/' ∷ (name ++ 0 ∷ [])

  copy_name :
      memcpy (some garbage.name) (some (name ++ 0 ∷ [])) (length name)
      ≡ done (some (name ++ drop (length name) garbage.name))
  copy_name =
      rw (memcpy_lem (some garbage.name) (some (name ++ 0 ∷ [])) (length name))
        (ground (arith, take-append name (0 ∷ []), length-append name (0 ∷ [])))

  copy_magic :
      memcpy (some garbage.magic) (some (b'L' ∷ b'O' ∷ b'R' ∷ b'D' ∷ 0 ∷ [])) 4
      ≡ done (some (b'L' ∷ b'O' ∷ b'R' ∷ b'D' ∷ []))
  copy_magic =
      rw (memcpy_lem (some garbage.magic) (some (b'L' ∷ b'O' ∷ b'R' ∷ b'D' ∷ 0 ∷ [])) 4)
        (ground (arith, drop-all 4 garbage.magic four))

  str_len : strlen (name ++ 0 ∷ []) ≡ done (length name)
  str_len =
      rw
        (
          strlen_lem (name ++ 0 ∷ []) (omega (arith, length-append name (0 ∷ []))),
          c_str-terminated name [] chars,
        )
        refl

  written : FileHdr
  written = record {
    magic = b'L' ∷ b'O' ∷ b'R' ∷ b'D' ∷ [];
    hdr_size = 20 + length name;
    file_size = length contents;
    name = name ++ drop (length name) garbage.name;
  }

  file_hdr_init-written :
      file_hdr_init (some full_path) (length contents) (some garbage)
      ≡ done (20 + length name, some written)
  unfolding file_hdr_init next written
  file_hdr_init-written =
      let keep : (if leb 98 (length name) then 98 else length name) ≡ length name = ground arith in
      let size : u64 (length name + 20) ≡ 20 + length name = omega arith in
      rw (skip_root-slash root (name ++ 0 ∷ []) in_root, str_len, keep, copy_name, copy_magic, size)
        refl

  take-image :
      take (20 + length name) (header_image written)
      ≡ b'L'
        ∷ b'O'
        ∷ b'R'
        ∷ b'D'
        ∷ (to_bytes 8 (20 + length name) ++ (to_bytes 8 (length contents) ++ name))
  unfolding header_image written
  take-image =
      rw
        (
          take-add 20 (length name) (header_image written),
          take-append name (drop (length name) garbage.name),
        )
        refl

  -- `write_file` of a readable file, whatever is on the stack.
  write_file-memar_entry :
      write_file garbage (some full_path) (some contents) ≡ done (memar_entry name contents)
  unfolding write_file
  write_file-memar_entry = rw (file_hdr_init-written, take-image) refl

module _ (c d : ℕ) (ns contents : List ℕ) (short : length (c ∷ d ∷ ns) < 98)
    (small : length contents < 2 ^ 63) where
  memar_hdr_size : hdr_size (memar_entry (c ∷ d ∷ ns) contents) ≡ done (22 + length ns)
  unfolding hdr_size
  memar_hdr_size =
      read_word-to_bytes 8 (20 + length (c ∷ d ∷ ns)) (drop 12 (memar_entry (c ∷ d ∷ ns) contents))
        (omega arith)
      ∙ ap done (omega arith)

  memar_file_size : file_size (memar_entry (c ∷ d ∷ ns) contents) ≡ done (length contents)
  unfolding file_size
  memar_file_size =
      read_word-to_bytes 8 (length contents) (drop 20 (memar_entry (c ∷ d ∷ ns) contents))
        (omega arith)

  memar_fname_size : fname_size (memar_entry (c ∷ d ∷ ns) contents) ≡ done c
  unfolding fname_size
  memar_fname_size = refl

  behind_contents :
      drop (length contents + (22 + length ns)) (memar_entry (c ∷ d ∷ ns) contents)
      ≡ replicate (u8 (sub64 (align_up (length contents) 8) (length contents))) 0
  behind_contents =
      let parts : length contents + (22 + length ns) ≡ 22 + (length ns + length contents) =
        omega arith in
      rw
        (
          parts,
          drop-add 22 (length ns + length contents) (memar_entry (c ∷ d ∷ ns) contents),
          drop-add (length ns) (length contents) _,
          drop-append ns _,
        )
        (drop-append contents _)

  abbrev behind : ℕ → ℕ → List ℕ → Run (Option ℕ)
  behind fuel step path =
      lookup_loop fuel (0 + step) (drop step (memar_entry (c ∷ d ∷ ns) contents)) path

  lookup-first :
      (path : List ℕ) {p : ℕ} {ps : List ℕ} (fuel : ℕ)
      → c ≢ 0
      → c_str path ≡ some (p ∷ ps)
      → d ≢ p
      → lookup_loop (suc fuel) 0 (memar_entry (c ∷ d ∷ ns) contents) path
        ≡ behind fuel (u64 (length contents + (22 + length ns))) path
  unfolding lookup_loop memcmp
  lookup-first path fuel nz str ne =
      let (e, run, differ) =
        compare_first c d
          (ns
            ++ (contents
                ++ replicate (u8 (sub64 (align_up (length contents) 8) (length contents))) 0))
          path nz str ne in
      rw (memar_fname_size, run, memar_hdr_size, differ, memar_file_size) refl

  lookup-missed :
      (path : List ℕ) {p : ℕ} {ps : List ℕ} (fuel : ℕ)
      → c ≢ 0
      → c_str path ≡ some (p ∷ ps)
      → d ≢ p
      → lookup_loop (suc (suc fuel)) 0 (memar_entry (c ∷ d ∷ ns) contents) path ≡ done none
  lookup-missed path fuel nz str ne =
      let step : u64 (length contents + (22 + length ns)) ≡ length contents + (22 + length ns) =
        omega arith in
      lookup-first path (suc fuel) nz str ne
      ∙ ap (λ k. behind (suc fuel) k path) step
      ∙ ap (λ rest. lookup_loop (suc fuel) (0 + (length contents + (22 + length ns))) rest path)
          behind_contents
      ∙ lookup_loop-zeros fuel _ _ path

-- A file that the archiver wrote into an archive of its own, under a name whose second character
-- differs from the first character of the path that is looked up, is not found: so no file is
-- found by its own name unless that name begins with the same character twice. `garbage` is what
-- the archiver's header holds before, two rounds are enough.
pub initrd_lookup-write_file :
    (garbage : FileHdr) (root : List ℕ) (c d : ℕ) (ns contents path : List ℕ) {p : ℕ} {ps : List ℕ}
    (fuel : ℕ)
    → length garbage.magic ≡ 4
    → length garbage.name ≡ 99
    → All (λ x. (x == b'/' || x == 0) ≡ false) root
    → All (λ x. x ≢ 0) (c ∷ d ∷ ns)
    → length (c ∷ d ∷ ns) < 98
    → length contents < 2 ^ 63
    → c_str (relative path) ≡ some (p ∷ ps)
    → d ≢ p
    → (image : List ℕ) × (write_file garbage
          (some (root ++ b'/' ∷ (c ∷ d ∷ (ns ++ 0 ∷ []))))
          (some contents)
        ≡ done image)
      × (initrd_lookup (suc (suc fuel)) (some image) (some path) ≡ done none)
unfolding initrd_lookup skip_slash c_str
initrd_lookup-write_file garbage root c d ns contents [] fuel four room in_root chars short small
      str ne =
    cc
initrd_lookup-write_file garbage root c d ns contents (b ∷ path) fuel four room in_root chars short
      small str ne =
    (
      memar_entry (c ∷ d ∷ ns) contents,
      write_file-memar_entry garbage four room root (c ∷ d ∷ ns) contents in_root chars short,
      lookup-missed c d ns contents short small (relative (b ∷ path)) fuel (chars.0) str ne,
    )
