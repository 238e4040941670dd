-- ===== src/Arena/Reset.antt =====
-- json_arena_create, json_arena_reset and json_arena_trim.
use s_json.Base.{
  ℕ, ◌-◌, ◌≤◌, ◌≡◌, Bool, true, false, none, ◌&&◌, ◌==◌, leb, if◌then◌else◌, refl, sym, ap, subst,
  ◌∙◌, List, [], ◌∷◌, ◌++◌, Option, some, All, arith, size_max,
}
use s_json.Arena.{
  Block, Arena, JsonAllocator, json_arena_create, block_new, block_from, block_request, align_up,
  arena_alloc, sizeof_arena, create_with, chain, clear_all, cleared, rewind, json_arena_reset,
  json_arena_trim, cut_after_first,
}
use s_json.Arena.Chain.{BlockIsValid, total_used, clear_all-IsValid, total_used-clear_all}
use s_json.Arena.Served.{IsValid}

rewind-chain :
    (before : List Block) (a : Arena)
    → chain (rewind before (record a { before = before }))
      ≡ clear_all (before ++ (a.current ∷ a.after))
unfolding rewind
rewind-chain [] a = refl
rewind-chain (b ∷ bs) a = refl

rewind_counters :
    (before : List Block) (a : Arena)
    → let r = rewind before a in
      (r.total_bytes ≡ 0)
      × (r.node_count ≡ 0)
      × (r.block_size ≡ a.block_size)
      × (r.calls ≡ a.calls)
      × (a.before ≡ before → r.before ≡ [])
unfolding rewind
rewind_counters [] a = (refl, refl, refl, refl, λ e. e)
rewind_counters (b ∷ bs) a = (refl, refl, refl, refl, λ e. refl)

pub record IsReset (a r : Arena) : Type 0 where
  pub kept : chain r ≡ clear_all (chain a)
  pub at_first : r.before ≡ []
  pub no_bytes : r.total_bytes ≡ 0
  pub no_nodes : r.node_count ≡ 0
  pub no_calls : r.calls ≡ a.calls
  pub valid : IsValid r

-- Resetting a valid arena keeps the chain of blocks with every block empty, makes the first the
-- current one, and sets the counters to zero with no request to the backing allocator; the arena is
-- then valid.
pub json_arena_reset-IsReset : (a : Arena) → IsValid a → IsReset a (json_arena_reset a)
unfolding json_arena_reset
json_arena_reset-IsReset a v =
    let kept = rewind-chain a.before a in
    let (bytes, nodes, size, calls, first) = rewind_counters a.before a in
    record {
      kept = kept;
      at_first = first refl;
      no_bytes = bytes;
      no_nodes = nodes;
      no_calls = calls;
      valid = record {
        blocks = subst (All BlockIsValid) (sym kept) (clear_all-IsValid (chain a) v.blocks);
        counted = bytes ∙ sym (ap total_used kept ∙ total_used-clear_all (chain a));
        bounded = omega (arith, bytes);
        block_size_le = omega (arith, size, v.block_size_le);
      };
    }

pub record IsTrimmed (old : List Block) (r : Arena) (freed : List Block) : Type 0 where
  pub first : Block
  pub splits : old ≡ first ∷ freed
  pub left : chain r ≡ cleared first ∷ []
  pub no_bytes : r.total_bytes ≡ 0
  pub no_nodes : r.node_count ≡ 0

cut-IsTrimmed :
    (before : List Block) (a : Arena)
    → let (kept, freed) = cut_after_first before a in
      IsTrimmed (before ++ (a.current ∷ a.after)) (json_arena_reset kept) freed
unfolding json_arena_reset cut_after_first rewind clear_all
cut-IsTrimmed [] a = record {
  first = a.current;
  splits = refl;
  left = refl;
  no_bytes = refl;
  no_nodes = refl;
}
cut-IsTrimmed (b ∷ bs) a = record {
  first = b;
  splits = refl;
  left = refl;
  no_bytes = refl;
  no_nodes = refl;
}

-- A trim frees every block of the chain but the first, and leaves that one empty.
pub json_arena_trim-IsTrimmed :
    (a : Arena) → let (r, freed) = json_arena_trim a in IsTrimmed (chain a) r freed
unfolding json_arena_trim
json_arena_trim-IsTrimmed a = cut-IsTrimmed a.before a

pub json_arena_create-IsValid :
    (libc : JsonAllocator) (alloc : Option JsonAllocator) (block_size : ℕ) {a : Arena}
    → block_size ≤ size_max
    → json_arena_create libc alloc block_size ≡ some a
    → IsValid a
      × (chain a ≡ a.current ∷ [])
      × (a.total_bytes ≡ 0)
      × (a.node_count ≡ 0)
      × (a.calls ≡ 2)
unfolding json_arena_create create_with block_new block_from block_request align_up
json_arena_create-IsValid libc alloc block_size h e = ground arith

-- The size of the first block: 64 KiB by default, and never below 4 KiB.
abbrev pub first_block : ℕ → ℕ
first_block block_size =
    if block_size == 0 then 65536 else if leb 4096 block_size then block_size else 4096

-- Both callbacks are there, and the requests for the arena and for its first block are granted.
abbrev pub grants_both : JsonAllocator → ℕ → Bool
grants_both backing size =
    backing.has_alloc && backing.has_free && backing.grants 0 sizeof_arena && backing.grants 1 size

-- What an allocation of `n` bytes from the arena gives: the start of the first block, with no request.
abbrev pub Serves : Arena → ℕ → Type 0
Serves a n =
    let (region, a') = arena_alloc a n in
    (region ≡ some (record { block = 0; offset = 0; size = align_up n })) × (a'.calls ≡ 2)

-- NULL exactly where something is missing.
abbrev pub CreatesIf : Bool → ℕ → Option Arena → Type 0
CreatesIf granted n none = granted ≡ false
CreatesIf granted n (some a) = (granted ≡ true) × (IsValid a × Serves a n)

abbrev pub Creates : JsonAllocator → ℕ → ℕ → Option Arena → Type 0
Creates backing size n made = CreatesIf (grants_both backing size) n made

-- The allocator that is used: the default one where none is given.
abbrev pub chosen : JsonAllocator → Option JsonAllocator → JsonAllocator
chosen libc none = libc
chosen libc (some given) = given

-- The arena around a first block of this size.
abbrev fresh_arena : JsonAllocator → ℕ → Arena
fresh_arena backing size = record {
  before = [];
  current = record { cap = size - 24; used = 0 };
  after = [];
  block_size = size;
  total_bytes = 0;
  node_count = 0;
  backing = backing;
  calls = 2;
}

-- The arena before its first block is there.
abbrev bare_arena : JsonAllocator → ℕ → Arena
bare_arena backing size = record (fresh_arena backing size) {
  current = record { cap = 0; used = 0 };
  calls = 1;
}

abbrev with_block : Option Block × Arena → Option Arena
with_block (made, a) = elim made [ none ↦ none | some block ↦ some (record a { current = block }) ]
