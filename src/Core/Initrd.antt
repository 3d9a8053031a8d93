-- ===== src/Core/Initrd.antt =====
-- The initial ramdisk of sys/hive/core/initrd.c. The static `initrd` is the bytes of the module, or
-- `none` while its address is null; a pointer into it is the offset from its start.
pub mod Laws
use open_modality.Base.{ℕ, zero, suc, ◌+◌, ◌%◌, ◌^◌, true, false, Option, none, some, List, [], ◌∷◌}
use open_modality.Base.Tests.{◌==◌, if◌then◌else◌}
use open_modality.Base.Lists.{get_elem?, drop}
use open_modality.Base.Run.{Run, done, out_of_fuel, ◌>>=◌, from_option}
use open_modality.Base.Bytes.{read_word}
use open_modality.Base.Words.{u64}
use open_modality.Base.Result.{Result, ok, err}
use open_modality.Core.Bpt
use open_modality.Core.Bpt.{Hooks, Module}
use open_modality.Sdk.Memory.{memcmp}

-- MEMAR_MAGIC, and its length.
abbrev pub memar_magic : List ℕ
memar_magic = b'L' ∷ b'O' ∷ b'R' ∷ b'D' ∷ []

abbrev pub memar_magic_len : ℕ
memar_magic_len = 4

-- The fields of the packed `struct file_hdr` at the start of an object: `magic` at 0, `hdr_size`
-- at 4, `file_size` at 12, `fname_size` at 20 and `name` at 21.
unfoldable pub hdr_size : List ℕ → Run ℕ
hdr_size hdr = read_word 8 (drop 4 hdr)

unfoldable pub file_size : List ℕ → Run ℕ
file_size hdr = read_word 8 (drop 12 hdr)

unfoldable pub fname_size : List ℕ → Run ℕ
fname_size hdr = from_option (get_elem? hdr 20)

abbrev pub name : List ℕ → List ℕ
name hdr = drop 21 hdr

-- The pointer `p` is its offset `at` and the bytes from it to `p_end`; a pointer past the end has
-- none, which ends the loop as well. The sizes are taken not to carry the pointer past 2 ^ 64, which
-- only a corrupt archive could make them do.
unfoldable pub lookup_loop : ℕ → ℕ → List ℕ → List ℕ → Run (Option ℕ)
lookup_loop zero at p path = out_of_fuel
lookup_loop (suc fuel) at [] path = done none
lookup_loop (suc fuel) at (byte ∷ bytes) path = do
  let hdr = byte ∷ bytes
  d ← memcmp hdr memar_magic memar_magic_len
  elim (d.size == 0) [
    | false ↦ done none
    | true ↦ do
      n ← fname_size hdr
      d' ← memcmp (name hdr) path n
      size ← hdr_size hdr
      elim (d'.size == 0) [
        | true ↦ done (some (at + size))
        | false ↦ do
          contents ← file_size hdr
          let step = u64 (contents + size)
          lookup_loop fuel (at + step) (drop step hdr) path
      ]
  ]

-- `if (*path == '/') ++path;`
unfoldable pub skip_slash : List ℕ → Run (List ℕ)
skip_slash path = do
  c ← from_option (get_elem? path 0)
  done (if c == b'/' then drop 1 path else path)

unfoldable pub initrd_lookup : ℕ → Option (List ℕ) → Option (List ℕ) → Run (Option ℕ)
initrd_lookup fuel initrd none = done none
initrd_lookup fuel none (some path) = do path' ← skip_slash path; done none
initrd_lookup fuel (some bytes) (some path) = do
  path' ← skip_slash path
  lookup_loop fuel 0 bytes path'

-- "/boot/initrd.mr"
abbrev pub initrd_path : List ℕ
initrd_path =
    b'/' ∷ b'b' ∷ b'o' ∷ b'o' ∷ b't' ∷ b'/' ∷ b'i' ∷ b'n' ∷ b'i' ∷ b't' ∷ b'r' ∷ b'd' ∷ b'.' ∷ b'm'
    ∷ b'r' ∷ 0 ∷ []

-- The module that becomes the ramdisk; `none` stands for the panic.
unfoldable pub initrd_init : Hooks → Run (Option Module)
initrd_init hooks = do
  r ← Bpt.bpt_get_module hooks (some initrd_path) false
  done (elim r [ err e ↦ none | ok m ↦ some m ])
