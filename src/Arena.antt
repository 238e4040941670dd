-- ===== src/Arena.antt =====
-- The bump allocator of src/sJson.c: JsonArenaBlock, JsonArena, json__align_up, json__block_new,
-- json_arena_create, json_arena_destroy, json_arena_reset, json_arena_trim, json__arena_alloc_raw.
-- Block contents are not modelled: an allocation is the region that it occupies.
pub mod Align
pub mod Chain
pub mod Served
pub mod Alloc
pub mod History
pub mod Reset
use s_json.Base.{
  ℕ, ◌+◌, ◌-◌, ◌%◌, ◌*◌, Bool, true, false, not, ◌&&◌, ◌||◌, List, [], ◌∷◌, ◌++◌, Option, none,
  some, ltb, leb, ◌==◌, if◌then◌else◌, size_max, u64_mod, u32_mod, length,
}

abbrev pub arena_align : ℕ
arena_align = 8

abbrev pub min_block : ℕ
min_block = 4 * 1024

abbrev pub max_nodes : ℕ
max_nodes = 1024 * 1024

-- sizeof on a 64-bit target.
abbrev pub sizeof_block : ℕ
sizeof_block = 24

abbrev pub sizeof_arena : ℕ
sizeof_arena = 72

abbrev pub sizeof_value : ℕ
sizeof_value = 40

-- The allocator callbacks: whether `alloc` and `free` are given, and which requests `alloc` grants,
-- by the number of requests before and the size.
pub record JsonAllocator : Type 0 where
  pub has_alloc : Bool
  pub has_free : Bool
  pub grants : ℕ → ℕ → Bool

pub record Block : Type 0 where
  pub cap : ℕ
  pub used : ℕ

-- The chain from `first` is `before`, `current`, `after`; `calls` counts the backing requests.
pub record Arena : Type 0 where
  pub before : List Block
  pub current : Block
  pub after : List Block
  pub block_size : ℕ
  pub total_bytes : ℕ
  pub node_count : ℕ
  pub backing : JsonAllocator
  pub calls : ℕ

-- A pointer into the data of a block of the chain, and the size handed out there.
pub record Region : Type 0 where
  pub block : ℕ
  pub offset : ℕ
  pub size : ℕ

-- `(sz + 7) & ~7`, in `size_t`.
unfoldable pub align_up : ℕ → ℕ
align_up sz = let t = (sz + (arena_align - 1)) % u64_mod in t - t % arena_align

-- The size asked of the backing allocator, or `none` where the request overflows.
unfoldable pub block_request : ℕ → ℕ → Option ℕ
unfolding align_up
block_request block_size min_size =
    let header = align_up sizeof_block in
    if ltb (size_max - header) min_size || ltb (size_max - (arena_align - 1)) (min_size + header)
    then none
    else some
        (if ltb block_size (min_size + header) then align_up (min_size + header) else block_size)

-- The request to the backing allocator, of the size that was found.
unfoldable pub block_from : Arena → Option ℕ → Option Block × Arena
block_from arena none = (none, arena)
block_from arena (some block_sz) =
    let asked = record arena { calls = arena.calls + 1 } in
    if arena.backing.grants arena.calls block_sz
    then (some (record { cap = block_sz - align_up sizeof_block; used = 0 }), asked)
    else (none, asked)

-- json__block_new: the block, if there is one, and the arena with its request counted.
unfoldable pub block_new : Arena → ℕ → Option Block × Arena
unfolding block_from
block_new arena min_size = block_from arena (block_request arena.block_size min_size)

abbrev pub default_block_size : ℕ → ℕ
default_block_size block_size =
    let size = if block_size == 0 then 64 * 1024 else block_size in
    if ltb size min_block then min_block else size

-- The arena record comes from the allocator too: that is its first request.
unfoldable pub create_with : JsonAllocator → ℕ → Option Arena
unfolding block_new
create_with backing block_size =
    let empty : Block = record { cap = 0; used = 0 } in
    let start : Arena = record {
      before = [];
      current = empty;
      after = [];
      block_size = default_block_size block_size;
      total_bytes = 0;
      node_count = 0;
      backing = backing;
      calls = 1;
    } in
    if not (backing.grants 0 sizeof_arena)
    then none
    else let (made, arena) = block_new start 0 in
      elim made [ none ↦ none | some block ↦ some (record arena { current = block }) ]

-- A null allocator stands for libc's, given here as `libc`.
unfoldable pub json_arena_create : JsonAllocator → Option JsonAllocator → ℕ → Option Arena
unfolding create_with
json_arena_create libc alloc block_size =
    let eff : JsonAllocator = elim alloc [ none ↦ libc | some given ↦ given ] in
    if not eff.has_alloc || not eff.has_free then none else create_with eff block_size

-- The blocks from `first` on.
abbrev pub chain : Arena → List Block
chain arena = arena.before ++ (arena.current ∷ arena.after)

-- The blocks given back to `free`, in order, before the arena itself.
json_arena_destroy : Arena → List Block
json_arena_destroy arena = chain arena

abbrev cleared : Block → Block
cleared block = record block { used = 0 }

pub clear_all : List Block → List Block
clear_all [] = []
clear_all (b ∷ bs) = cleared b ∷ clear_all bs

-- `current = first`, every block cleared, the counters at zero.
rewind : List Block → Arena → Arena
unfolding clear_all
rewind [] arena = record arena {
  current = cleared arena.current;
  after = clear_all arena.after;
  total_bytes = 0;
  node_count = 0;
}
rewind (b ∷ bs) arena = record arena {
  before = [];
  current = cleared b;
  after = clear_all (bs ++ (arena.current ∷ arena.after));
  total_bytes = 0;
  node_count = 0;
}

unfoldable pub json_arena_reset : Arena → Arena
unfolding rewind
json_arena_reset arena = rewind arena.before arena

-- The chain cut after `first`, with the freed blocks.
cut_after_first : List Block → Arena → Arena × List Block
cut_after_first [] arena = (record arena { before = []; after = [] }, arena.after)
cut_after_first (b ∷ bs) arena =
    (record arena { before = []; current = b; after = [] }, bs ++ (arena.current ∷ arena.after))

unfoldable pub json_arena_trim : Arena → Arena × List Block
unfolding cut_after_first json_arena_reset
json_arena_trim arena =
    let (kept, freed) = cut_after_first arena.before arena in (json_arena_reset kept, freed)

-- `cap - used`, in `size_t`.
abbrev pub room : Block → ℕ
room block = (block.cap + u64_mod - block.used) % u64_mod

-- The walk along the retained blocks: to the first that fits, or to the last.
unfoldable pub advance : ℕ → List Block → Block → List Block → List Block × Block × List Block
advance size before cur [] = (before, cur, [])
advance size before cur (b ∷ bs) =
    let rest = advance size (before ++ (cur ∷ [])) b bs in
    if leb size (room b) then (before ++ (cur ∷ []), b, bs) else rest

-- The allocation from a block that has room; it becomes the current one.
unfoldable pub take_from : Arena → ℕ → List Block → Block → List Block → Option Region × Arena
take_from arena size before cur after = (
  some (record { block = length before; offset = cur.used; size = size }),
  record arena {
    before = before;
    current = record cur { used = (cur.used + size) % u64_mod };
    after = after;
    total_bytes = (arena.total_bytes + size) % u64_mod;
  },
)

-- The block that json__block_new made goes behind the last one.
unfoldable pub append_block :
    ℕ → List Block → Block → List Block → Option Block → Arena → Option Region × Arena
append_block size before cur after none asked = (none, asked)
append_block size before cur after (some added) asked =
    take_from asked size (before ++ (cur ∷ [])) added after

-- The rest of json__arena_alloc_raw, where the current block has no room: `cur` is where the walk
-- ended.
unfoldable pub take_or_grow : Arena → ℕ → List Block → Block → List Block → Option Region × Arena
unfolding take_from append_block
take_or_grow arena size before cur after =
    let (made, asked) = block_new arena size in
    if ltb (room cur) size
    then append_block size before cur after made asked
    else take_from arena size before cur after

unfoldable pub alloc_aligned : Arena → ℕ → Option Region × Arena
unfolding advance take_or_grow
alloc_aligned arena size =
    if leb size (room arena.current)
    then take_from arena size arena.before arena.current arena.after
    else let (before, cur, after) = advance size arena.before arena.current arena.after in
      take_or_grow arena size before cur after

-- json__arena_alloc_raw, with or without the zero fill; `none` is NULL.
unfoldable pub arena_alloc : Arena → ℕ → Option Region × Arena
unfolding alloc_aligned align_up
arena_alloc arena size =
    let aligned = align_up size in
    if size == 0 || ltb aligned size || ltb (size_max - arena.total_bytes) aligned
    then (none, arena)
    else alloc_aligned arena aligned

-- A node that was handed out is counted.
unfoldable pub count_node : Option Region × Arena → Bool × Arena
count_node (none, a) = (false, a)
count_node (some _, a) = (true, record a { node_count = (a.node_count + 1) % u32_mod })

-- json__new_node. The node itself is a value of the model.
unfoldable pub new_node : Arena → Bool × Arena
unfolding count_node
new_node arena =
    if leb max_nodes arena.node_count
    then (false, arena)
    else count_node (arena_alloc arena sizeof_value)
