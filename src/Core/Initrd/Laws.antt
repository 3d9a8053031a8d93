-- ===== src/Core/Initrd/Laws.antt =====
-- The lookup of sys/hive/core/initrd.c on archives in the format that it reads.
use open_modality.Base.{
  ℕ, suc, ◌+◌, ◌^◌, ◌<◌, ◌≡◌, ◌≢◌, ◌∙◌, refl, ap, Bool, true, false, ◌&&◌, none, some, List, [],
  ◌∷◌, ◌++◌, append-nil, inl, inr, arith,
}
use mathlib.Core.Path.{subst}
use native.Mathlib.Decide.{ℕ_discrete}
use open_modality.Base.Tests.{◌==◌, if◌then◌else◌, Option-cases}
use open_modality.Base.Lists.{length, drop, All, drop-add, drop-append}
use open_modality.Base.Run.{done}
use open_modality.Base.Bytes.{to_bytes, read_word-to_bytes}
use open_modality.Base.Words.{u64}
use open_modality.Sdk.Memory.{Diff, diff, no_diff, memcmp}
use open_modality.Sdk.Str.{c_str}
use open_modality.Core.Initrd.{
  hdr_size, file_size, fname_size, lookup_loop, skip_slash, initrd_lookup,
}

-- A file of an archive: the characters of its name, and its contents.
pub record ArchiveFile : Type 0 where
  pub name : List ℕ
  pub contents : List ℕ

abbrev pub header_length : ArchiveFile → ℕ
header_length f = 21 + length f.name

-- A file in an archive, with what follows it.
abbrev pub entry : ArchiveFile → List ℕ → List ℕ
entry f rest =
    b'L'
    ∷ b'O'
    ∷ b'R'
    ∷ b'D'
    ∷ (to_bytes 8 (header_length f)
        ++ (to_bytes 8 (length f.contents) ++ (length f.name ∷ (f.name ++ (f.contents ++ rest)))))

abbrev pub archive : List ArchiveFile → List ℕ
archive [] = []
archive (f ∷ fs) = entry f (archive fs)

-- The name fits the length byte and holds no terminator, and the sizes fit their words.
pub record IsEntry (f : ArchiveFile) : Type 0 where
  pub short : length f.name < 256
  pub chars : All (λ c. c ≢ 0) f.name
  pub fits : length f.contents + header_length f < 2 ^ 64

abbrev pub is_prefix : List ℕ → List ℕ → Bool
is_prefix [] t = true
is_prefix (a ∷ s) [] = false
is_prefix (a ∷ s) (b ∷ t) = a == b && is_prefix s t

memcmp-is_prefix :
    (s rest path : List ℕ) {t : List ℕ}
    → All (λ c. c ≢ 0) s
    → c_str path ≡ some t
    → (d : Diff) × (memcmp (s ++ rest) path (length s) ≡ done d) × ((d.size == 0) ≡ is_prefix s t)
unfolding memcmp c_str
memcmp-is_prefix [] rest path chars str = (no_diff, refl, refl)
memcmp-is_prefix (a ∷ s) rest [] chars str = cc
memcmp-is_prefix (a ∷ s) rest (b ∷ path) (nz, chars) str = elim (ℕ_discrete b 0) [
  | yes z ↦ (diff a b, ground arith, ground arith)
  | no char ↦ elim (Option-cases (c_str path)) [
    | inl absent ↦ ground arith
    | inr (u, found) ↦ elim (ℕ_discrete a b) [
      | no ne ↦ (diff a b, ground arith, ground arith)
      | yes eq ↦
          let (d, run, same) = memcmp-is_prefix s rest path chars found in
          (d, ground arith, ground arith)
    ]
  ]
]

module _ (f : ArchiveFile) (rest : List ℕ) (is_entry : IsEntry f) where
  hdr_size-entry : hdr_size (entry f rest) ≡ done (header_length f)
  unfolding hdr_size
  hdr_size-entry =
      read_word-to_bytes 8 (header_length f) (drop 12 (entry f rest)) (omega (arith, is_entry.fits))

  file_size-entry : file_size (entry f rest) ≡ done (length f.contents)
  unfolding file_size
  file_size-entry =
      read_word-to_bytes 8 (length f.contents) (drop 20 (entry f rest))
        (omega (arith, is_entry.fits))

  fname_size-entry : fname_size (entry f rest) ≡ done (length f.name)
  unfolding fname_size
  fname_size-entry = refl

  drop-header : drop (header_length f) (entry f rest) ≡ f.contents ++ rest
  drop-header = rw (drop-add 21 (length f.name) (entry f rest)) (drop-append f.name _)

  drop-entry : drop (length f.contents + header_length f) (entry f rest) ≡ rest
  drop-entry =
      let swap : length f.contents + header_length f ≡ header_length f + length f.contents =
        omega arith in
      rw (swap, drop-add (header_length f) (length f.contents) (entry f rest), drop-header)
        (drop-append f.contents rest)

  module _ (fuel at : ℕ) (path : List ℕ) {t : List ℕ} (str : c_str path ≡ some t) where
    lookup_loop-hit :
        is_prefix f.name t ≡ true
        → lookup_loop (suc fuel) at (entry f rest) path ≡ done (some (at + header_length f))
    unfolding lookup_loop memcmp
    lookup_loop-hit hit =
        let (d, run, same) = memcmp-is_prefix f.name (f.contents ++ rest) path is_entry.chars str in
        rw (fname_size-entry, run, hdr_size-entry, same, hit) refl

    lookup_loop-miss :
        is_prefix f.name t ≡ false
        → lookup_loop (suc fuel) at (entry f rest) path
          ≡ lookup_loop fuel (at + (length f.contents + header_length f)) rest path
    unfolding lookup_loop memcmp
    lookup_loop-miss miss =
        let (d, run, same) = memcmp-is_prefix f.name (f.contents ++ rest) path is_entry.chars str in
        let step : u64 (length f.contents + header_length f) ≡ length f.contents + header_length f =
          omega (arith, is_entry.fits) in
        rw (fname_size-entry, run, hdr_size-entry, same, miss, file_size-entry, step, drop-entry)
          refl

-- The offset behind a list of files.
abbrev pub end_of : List ArchiveFile → ℕ
end_of [] = 0
end_of (f ∷ fs) = length f.contents + header_length f + end_of fs

module _ (path : List ℕ) {t : List ℕ} (str : c_str path ≡ some t) where
  -- Files whose names do not begin the path are passed over.
  lookup_loop-skip :
      (fuel at : ℕ) (fs rest_files : List ArchiveFile)
      → All IsEntry fs
      → All (λ f. is_prefix f.name t ≡ false) fs
      → lookup_loop (length fs + fuel) at (archive (fs ++ rest_files)) path
        ≡ lookup_loop fuel (at + end_of fs) (archive rest_files) path
  lookup_loop-skip fuel at [] rest_files entries misses =
      let no_move : at ≡ at + 0 = omega arith in
      let no_fuel : fuel ≡ 0 + fuel = omega arith in
      subst
        (λ k.
          lookup_loop k at (archive rest_files) path
          ≡ lookup_loop fuel (at + 0) (archive rest_files) path)
        no_fuel (ap (λ k. lookup_loop fuel k (archive rest_files) path) no_move)
  lookup_loop-skip fuel at (f ∷ fs) rest_files (is_entry, entries) (miss, misses) =
      let size = length f.contents + header_length f in
      let shift : suc (length fs + fuel) ≡ suc (length fs) + fuel = omega arith in
      let sum : at + size + end_of fs ≡ at + (size + end_of fs) = omega arith in
      subst
        (λ k.
          lookup_loop k at (archive (f ∷ (fs ++ rest_files))) path
          ≡ lookup_loop fuel (at + (size + end_of fs)) (archive rest_files) path)
        shift
        (lookup_loop-miss f (archive (fs ++ rest_files)) is_entry (length fs + fuel) at path str
            miss
          ∙ lookup_loop-skip fuel (at + size) fs rest_files entries misses
          ∙ ap (λ k. lookup_loop fuel k (archive rest_files) path) sum)

drop-end_of :
    (fs rest_files : List ArchiveFile)
    → All IsEntry fs
    → drop (end_of fs) (archive (fs ++ rest_files)) ≡ archive rest_files
drop-end_of [] rest_files entries = refl
drop-end_of (f ∷ fs) rest_files (is_entry, entries) =
    rw
      (
        drop-add (length f.contents + header_length f) (end_of fs)
            (archive (f ∷ (fs ++ rest_files))),
        drop-entry f (archive (fs ++ rest_files)) is_entry,
      )
      (drop-end_of fs rest_files entries)

-- The path without a slash at its start.
abbrev pub relative : List ℕ → List ℕ
relative [] = []
relative (c ∷ s) = if c == b'/' then s else c ∷ s

-- In an archive of the format that the kernel reads, `initrd_lookup` returns the first file whose
-- name begins the path without its leading slash: the pointer leads to the contents of that file.
-- One round for each file ahead of it and one more are enough.
pub initrd_lookup_found :
    (fs : List ArchiveFile) (f : ArchiveFile) (gs : List ArchiveFile) (path : List ℕ) {t : List ℕ}
    (fuel : ℕ)
    → All IsEntry fs
    → IsEntry f
    → c_str (relative path) ≡ some t
    → All (λ g. is_prefix g.name t ≡ false) fs
    → is_prefix f.name t ≡ true
    → (at : ℕ) × (initrd_lookup (length fs + suc fuel) (some (archive (fs ++ f ∷ gs))) (some path)
        ≡ done (some at))
      × (drop at (archive (fs ++ f ∷ gs)) ≡ f.contents ++ archive gs)
unfolding initrd_lookup skip_slash c_str
initrd_lookup_found fs f gs [] fuel entries is_entry str misses hit = cc
initrd_lookup_found fs f gs (c ∷ path) fuel entries is_entry str misses hit =
    let found =
      lookup_loop-skip (relative (c ∷ path)) str (suc fuel) 0 fs (f ∷ gs) entries misses
      ∙ lookup_loop-hit f (archive gs) is_entry fuel (0 + end_of fs) (relative (c ∷ path)) str
          hit in
    let sum : 0 + end_of fs + header_length f ≡ end_of fs + header_length f = omega arith in
    (
      end_of fs + header_length f,
      found ∙ ap (λ k. done (some k)) sum,
      rw
          (
            drop-add (end_of fs) (header_length f) (archive (fs ++ f ∷ gs)),
            drop-end_of fs (f ∷ gs) entries,
          )
          (drop-header f (archive gs) is_entry),
    )

-- If no name of the archive begins the path, `initrd_lookup` returns null after a round for each
-- file and one more.
initrd_lookup_absent :
    (fs : List ArchiveFile) (path : List ℕ) {t : List ℕ} (fuel : ℕ)
    → All IsEntry fs
    → c_str (relative path) ≡ some t
    → All (λ g. is_prefix g.name t ≡ false) fs
    → initrd_lookup (length fs + suc fuel) (some (archive fs)) (some path) ≡ done none
unfolding initrd_lookup skip_slash c_str lookup_loop
initrd_lookup_absent fs [] fuel entries str misses = cc
initrd_lookup_absent fs (c ∷ path) fuel entries str misses =
    subst
      (λ gs. lookup_loop (length fs + suc fuel) 0 (archive gs) (relative (c ∷ path)) ≡ done none)
      (append-nil fs) (lookup_loop-skip (relative (c ∷ path)) str (suc fuel) 0 fs [] entries misses)
