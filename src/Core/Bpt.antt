-- ===== src/Core/Bpt.antt =====
-- The boot protocol layer of sys/hive/core/bpt.c and sys/hive/inc/core/bpt.h, and its Limine
-- implementation in sys/hive/bpt/limine.c. What the boot loader answered is a value of `Responses`.
pub mod Laws
use open_modality.Base.{ℕ, ◌+◌, Bool, true, false, ◌||◌, Option, none, some, List, [], ◌∷◌}
use open_modality.Base.Tests.{◌==◌, leb, if◌then◌else◌}
use open_modality.Base.Lists.{length, get_elem?}
use open_modality.Base.Run.{Run, done, fault, ◌>>=◌, from_option}
use open_modality.Base.Result.{Errno, minus_one, einval, enoent, Result, ok, err}
use open_modality.Sdk.Str.{strcmp}

pub data MemType : Type 0 where
  usable reserved acpi_reclaim acpi_nvs bad bootloader kernel framebuffer : MemType

pub record Vars : Type 0 where
  pub kernel_base : ℕ
  pub rsdp_base : ℕ

-- `struct bpt_module`: the bytes at `address`, of which there are `length`.
pub record Module : Type 0 where
  pub address : ℕ
  pub length : ℕ

pub record MemEntry : Type 0 where
  pub base : ℕ
  pub length : ℕ
  pub type : MemType

-- `struct bpt_hooks`; an unset hook is `none`. A hook is given whether its result pointer is null,
-- and `name` is null or the bytes it points to.
pub record Hooks : Type 0 where
  pub get_vars : Option ((res_null : Bool) → Run (Result Vars))
  pub get_mementry : Option ((index : ℕ) → (res_null : Bool) → Run (Result MemEntry))
  pub get_module : Option ((name : Option (List ℕ)) → (res_null : Bool) → Run (Result Module))

unfoldable pub bpt_get_vars : Hooks → Bool → Run (Result Vars)
bpt_get_vars hooks res_null = elim hooks.get_vars [
  | none ↦ done (err minus_one)
  | some hook ↦ hook res_null
]

unfoldable pub bpt_get_mementry : Hooks → ℕ → Bool → Run (Result MemEntry)
bpt_get_mementry hooks index res_null = elim hooks.get_mementry [
  | none ↦ done (err minus_one)
  | some hook ↦ hook index res_null
]

unfoldable pub bpt_get_module : Hooks → Option (List ℕ) → Bool → Run (Result Module)
bpt_get_module hooks name res_null = elim hooks.get_module [
  | none ↦ done (err minus_one)
  | some hook ↦ hook name res_null
]

-- One file of the module response: its path and where it lies.
pub record File : Type 0 where
  pub path : List ℕ
  pub address : ℕ
  pub size : ℕ

-- What the four requests of the Limine protocol were answered.
pub record Responses : Type 0 where
  pub hhdm_offset : ℕ
  pub rsdp_address : ℕ
  pub memmap : List MemEntry
  pub modules : List File

unfoldable pub find_module : List ℕ → List File → Run (Result Module)
find_module name [] = done (err enoent)
find_module name (file ∷ files) =
    let rest = find_module name files in
    do
      d ← strcmp file.path name
      if d.size == 0
          then done (ok (record { address = file.address; length = file.size }))
          else rest

unfoldable pub limine_get_module : Responses → Option (List ℕ) → Bool → Run (Result Module)
limine_get_module resp none res_null = done (err einval)
limine_get_module resp (some name) true = done (err einval)
limine_get_module resp (some name) false = find_module name resp.modules

unfoldable pub limine_get_vars : Responses → Bool → Run (Result Vars)
limine_get_vars resp true = done (err minus_one)
limine_get_vars resp false =
    done (ok (record { kernel_base = resp.hhdm_offset; rsdp_base = resp.rsdp_address }))

unfoldable pub limine_get_mementry : Responses → ℕ → Bool → Run (Result MemEntry)
limine_get_mementry resp index res_null =
    if res_null || leb (length resp.memmap) index
    then done (err minus_one)
    else do entry ← from_option (get_elem? resp.memmap index); done (ok entry)

-- The hooks that are set when the hook table itself is not null.
unfoldable pub bpt_init_limine : Responses → Option Hooks → Result Hooks
bpt_init_limine resp none = err minus_one
bpt_init_limine resp (some hooks) = ok (record {
  get_vars = some (limine_get_vars resp);
  get_mementry = some (limine_get_mementry resp);
  get_module = some (limine_get_module resp);
})

-- "limine", the one protocol that is known.
abbrev pub sig_limine : List ℕ
sig_limine = b'l' ∷ b'i' ∷ b'm' ∷ b'i' ∷ b'n' ∷ b'e' ∷ 0 ∷ []

-- `boot_proto` is the text that the build passes as BOOT_PROTO. On success the table is replaced.
unfoldable pub bpt_init : List ℕ → Responses → Hooks → Run (Result Hooks)
bpt_init boot_proto resp hooks = do
  first ← from_option (get_elem? boot_proto 0)
  let matched = strcmp boot_proto sig_limine >>= λ d.
      done (if d.size == 0 then bpt_init_limine resp (some hooks) else err minus_one)
  if first == b'l' then matched else done (err minus_one)

-- `bpt_kernel_base`: zero when the variables cannot be had.
unfoldable pub bpt_kernel_base : Hooks → Run ℕ
bpt_kernel_base hooks = do
  r ← bpt_get_vars hooks false
  done (elim r [ ok vars ↦ vars.kernel_base | err e ↦ 0 ])
