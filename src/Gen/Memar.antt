-- ===== src/Gen/Memar.antt =====
-- The archiver of gen/memar/memar.c: what it writes for one file. A path is the bytes from its
-- pointer on, and `contents` what the system returns for the file, `none` if it cannot be opened.
-- Directory traversal and the command line are system calls and are left out.
pub mod Mismatch
use open_modality.Base.{
  ℕ, ◌+◌, ◌-◌, ◌%◌, ◌^◌, Bool, true, false, ◌||◌, Option, none, some, List, [], ◌∷◌, ◌++◌,
}
use open_modality.Base.Tests.{◌==◌, leb, if◌then◌else◌}
use open_modality.Base.Lists.{length, take, replicate}
use open_modality.Base.Run.{Run, done, fault, ◌>>=◌}
use open_modality.Base.Bytes.{to_bytes}
use open_modality.Base.Words.{u64, u8, sub64, align_up}
use open_modality.Sdk.Memory.{memcpy}
use open_modality.Sdk.Str.{strlen}

abbrev pub file_name_max : ℕ
file_name_max = 99

abbrev pub file_align : ℕ
file_align = 8

-- `struct file_hdr`, packed: four bytes of `magic`, two words of eight bytes and the name.
pub record FileHdr : Type 0 where
  pub magic : List ℕ
  pub hdr_size : ℕ
  pub file_size : ℕ
  pub name : List ℕ

-- `sizeof(struct file_hdr)`
abbrev pub file_hdr_bytes : ℕ
file_hdr_bytes = 4 + 8 + 8 + file_name_max

-- `while (*name != '/' && *name != '\0') ++name;`
unfoldable pub skip_root : List ℕ → Run (List ℕ)
skip_root [] = fault
skip_root (c ∷ name) = if c == b'/' || c == 0 then done (c ∷ name) else skip_root name

-- `++name`
unfoldable pub next : List ℕ → Run (List ℕ)
next [] = fault
next (c ∷ name) = done name

-- `hdr` is what the header holds before. The length and the header are returned.
unfoldable pub file_hdr_init : Option (List ℕ) → ℕ → Option FileHdr → Run (ℕ × Option FileHdr)
file_hdr_init none file_sz hdr = done (0, hdr)
file_hdr_init (some name) file_sz none = done (0, none)
file_hdr_init (some name) file_sz (some hdr) = do
  root ← skip_root name
  name' ← next root
  len ← strlen name'
  let name_len = if leb (file_name_max - 1) len then file_name_max - 1 else len
  copied ← memcpy (some hdr.name) (some name') name_len
  magic ← memcpy (some hdr.magic) (some (b'L' ∷ b'O' ∷ b'R' ∷ b'D' ∷ 0 ∷ [])) 4
  let size = u64 (name_len + (file_hdr_bytes - file_name_max))
  let hdr' : FileHdr = record {
    magic = elim magic [ none ↦ hdr.magic | some m ↦ m ];
    hdr_size = size;
    file_size = file_sz;
    name = elim copied [ none ↦ hdr.name | some n ↦ n ];
  }
  done (size, some hdr')

-- The bytes of the packed header.
unfoldable pub header_image : FileHdr → List ℕ
header_image hdr = hdr.magic ++ (to_bytes 8 hdr.hdr_size ++ (to_bytes 8 hdr.file_size ++ hdr.name))

-- What `write_file` appends to the archive: `garbage` is what the header on the stack holds before. The
-- contents are `none` for a file that cannot be opened; the mapping of a file is taken to succeed, since
-- the code's test does not see that it fails.
unfoldable pub write_file : FileHdr → Option (List ℕ) → Option (List ℕ) → Run (List ℕ)
write_file garbage none contents = done []
write_file garbage (some path) none = done []
write_file garbage (some path) (some contents) = do
  let real_size = length contents
  (hdr_size, hdr) ← file_hdr_init (some path) real_size (some garbage)
  let align_size = align_up real_size file_align
  let pad_len = u8 (sub64 align_size real_size)
  let image : List ℕ = elim hdr [ none ↦ [] | some h ↦ take hdr_size (header_image h) ]
  done (image ++ (contents ++ replicate pad_len 0))
