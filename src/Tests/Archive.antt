-- ===== src/Tests/Archive.antt =====
-- The ramdisk and the archiver, run on small archives.
use open_modality.Base.{ℕ, ◌≡◌, refl, none, some, List, [], ◌∷◌, arith}
use open_modality.Base.Lists.{drop, replicate}
use open_modality.Base.Run.{done}
use open_modality.Core.Initrd.{initrd_lookup}
use open_modality.Core.Initrd.Laws.{ArchiveFile, IsEntry, archive, initrd_lookup_found}
use open_modality.Sdk.Str.{c_str}
use open_modality.Gen.Memar.{FileHdr, write_file}
use open_modality.Gen.Memar.Mismatch.{initrd_lookup-write_file}

abbrev kernel_file : ArchiveFile
kernel_file = record { name = b'k' ∷ []; contents = 1 ∷ 2 ∷ 3 ∷ [] }

abbrev init_file : ArchiveFile
init_file = record { name = b'i' ∷ b'n' ∷ []; contents = 7 ∷ 8 ∷ [] }

kernel_file-IsEntry : IsEntry kernel_file
kernel_file-IsEntry = record { short = omega arith; chars = (ground arith, tt); fits = omega arith }

init_file-IsEntry : IsEntry init_file
init_file-IsEntry = record {
  short = omega arith;
  chars = (ground arith, (ground arith, tt));
  fits = omega arith;
}

-- "/init", which the name "in" begins.
abbrev init_path : List ℕ
init_path = b'/' ∷ b'i' ∷ b'n' ∷ b'i' ∷ b't' ∷ 0 ∷ []

initrd_lookup_found_example :
    (at : ℕ) × (initrd_lookup 5 (some (archive (kernel_file ∷ init_file ∷ []))) (some init_path)
      ≡ done (some at))
    × (drop at (archive (kernel_file ∷ init_file ∷ [])) ≡ 7 ∷ 8 ∷ [])
unfolding c_str
initrd_lookup_found_example =
    initrd_lookup_found (kernel_file ∷ []) init_file [] init_path 3 (kernel_file-IsEntry, tt)
      init_file-IsEntry refl (refl, tt) refl

abbrev stack_garbage : FileHdr
stack_garbage = record { magic = replicate 4 9; hdr_size = 5; file_size = 6; name = replicate 99 7 }

-- The file "in" of the directory "d", looked up as "in".
initrd_lookup-write_file_example :
    (image : List ℕ) × (write_file stack_garbage
        (some (b'd' ∷ b'/' ∷ b'i' ∷ b'n' ∷ 0 ∷ []))
        (some (1 ∷ 2 ∷ []))
      ≡ done image)
    × (initrd_lookup 2 (some image) (some (b'i' ∷ b'n' ∷ 0 ∷ [])) ≡ done none)
unfolding c_str
initrd_lookup-write_file_example =
    initrd_lookup-write_file stack_garbage (b'd' ∷ []) b'i' b'n' [] (1 ∷ 2 ∷ [])
      (b'i' ∷ b'n' ∷ 0 ∷ []) 0 refl refl (refl, tt) (ground arith, (ground arith, tt)) (omega arith)
      (omega arith) refl (ground arith)
