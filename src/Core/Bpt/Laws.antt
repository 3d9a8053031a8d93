-- ===== src/Core/Bpt/Laws.antt =====
-- The memory map and the modules as the kernel sees them through the hooks that Limine sets.
use open_modality.Base.{ℕ, zero, suc, ◌≡◌, refl, false, none, some, List, [], ◌∷◌, arith}
use open_modality.Base.Tests.{leb, if◌then◌else◌}
use open_modality.Base.Lists.{length, get_elem?}
use open_modality.Base.Run.{done, ◌>>=◌, from_option}
use open_modality.Base.Result.{minus_one, Result, ok, err}
use open_modality.Sdk.Str.{strcmp}
use open_modality.Core.Bpt.{
  MemEntry, Hooks, Responses, bpt_get_mementry, limine_get_mementry, limine_get_vars,
  limine_get_module, bpt_init, bpt_init_limine, sig_limine,
}

-- The `index`-th entry of the map, or -1 past its end.
abbrev pub entry_at : List MemEntry → ℕ → Result MemEntry
entry_at entries index = elim (get_elem? entries index) [ none ↦ err minus_one | some e ↦ ok e ]

-- The hooks hand out the entries of a memory map, one by one.
abbrev pub Serves : Hooks → List MemEntry → Type 0
Serves hooks entries =
    (index : ℕ) → bpt_get_mementry hooks index false ≡ done (entry_at entries index)

guarded_read :
    (es : List MemEntry) (i : ℕ)
    → (if leb (length es) i
        then done (err minus_one)
        else from_option (get_elem? es i) >>= λ e. done (ok e))
      ≡ done (entry_at es i)
guarded_read [] i = ground arith
guarded_read (e ∷ es) zero = ground arith
guarded_read (e ∷ es) (suc i) = ground (arith, guarded_read es i)

limine_get_mementry-entry_at :
    (resp : Responses) (index : ℕ)
    → limine_get_mementry resp index false ≡ done (entry_at resp.memmap index)
unfolding limine_get_mementry
limine_get_mementry-entry_at resp index = guarded_read resp.memmap index

-- When the kernel is built for "limine", `bpt_init` succeeds whatever was in the hook table, and from
-- then on `bpt_get_mementry` serves the map of the boot loader: its entries in order, then -1.
pub bpt_init-Serves :
    (resp : Responses) (hooks : Hooks)
    → (h : Hooks) × (bpt_init sig_limine resp hooks ≡ done (ok h)) × Serves h resp.memmap
unfolding bpt_init bpt_init_limine bpt_get_mementry strcmp
bpt_init-Serves resp hooks = (
  record {
    get_vars = some (limine_get_vars resp);
    get_mementry = some (limine_get_mementry resp);
    get_module = some (limine_get_module resp);
  },
  refl,
  limine_get_mementry-entry_at resp,
)
