-- ===== src/Tests/Arena.antt =====
-- Witnesses on the arena.
use s_json.Base.{◌-◌, ◌<◌, ◌≤◌, ◌%◌, ◌+◌, ◌≡◌, refl, true, none, some, [], ◌∷◌, arith, size_max}
use s_json.Arena.{
  Arena, Region, JsonAllocator, align_up, arena_alloc, json_arena_create, json_arena_reset,
  json_arena_trim, create_with, block_new, block_from, block_request, chain, sizeof_block,
}
use s_json.Arena.Align.{align_up_bounds, block_request-fits}
use s_json.Arena.Served.{IsValid, OutcomeOf}
use s_json.Arena.Alloc.{arena_alloc-Outcome}
use s_json.Arena.History.{Reach, begin, serve, Holds, Reach-Holds}
use s_json.Arena.Reset.{
  IsReset, IsTrimmed, json_arena_trim-IsTrimmed, json_arena_reset-IsReset,
  json_arena_create-IsValid,
}

abbrev generous : JsonAllocator
generous = record { has_alloc = true; has_free = true; grants = λ _ _. true }

-- What json_arena_create(NULL, 5000) gives.
abbrev fresh : Arena
fresh = record {
  before = [];
  current = record { cap = 4976; used = 0 };
  after = [];
  block_size = 5000;
  total_bytes = 0;
  node_count = 0;
  backing = generous;
  calls = 2;
}

fresh_created : json_arena_create generous none 5000 ≡ some fresh
unfolding json_arena_create create_with block_new block_from block_request align_up
fresh_created = refl

fresh-IsValid : IsValid fresh
fresh-IsValid = (json_arena_create-IsValid generous none 5000 (omega arith) fresh_created).0

align_up_bounds_example :
    (13 ≤ size_max - 7 → (align_up 13 % 8 ≡ 0) × (13 ≤ align_up 13) × (align_up 13 < 13 + 8))
    × (size_max - 7 < 13 → align_up 13 ≡ 0)
align_up_bounds_example = align_up_bounds 13 (omega arith)

large_request : block_request 4096 5000 ≡ some 5024
unfolding block_request align_up
large_request = refl

block_request-fits_example : (5000 + align_up sizeof_block ≤ 5024) × (5024 ≤ size_max)
block_request-fits_example = block_request-fits 4096 5000 (omega arith) large_request

arena_alloc-Outcome_example : OutcomeOf fresh (align_up 6000) (arena_alloc fresh 6000)
arena_alloc-Outcome_example = arena_alloc-Outcome fresh 6000 fresh-IsValid

abbrev region_1 : Region
region_1 = record { block = 0; offset = 0; size = 16 }

abbrev region_2 : Region
region_2 = record { block = 1; offset = 0; size = 6000 }

abbrev after_1 : Arena
after_1 = record fresh { current = record { cap = 4976; used = 16 }; total_bytes = 16 }

abbrev after_2 : Arena
after_2 = record after_1 {
  before = record { cap = 4976; used = 16 } ∷ [];
  current = record { cap = 6000; used = 6000 };
  total_bytes = 6016;
  calls = 3;
}

two_served : Reach fresh (region_2 ∷ region_1 ∷ []) after_2
unfolding arena_alloc block_new block_request
two_served = serve (serve begin 10 first) 6000 second
  where
    first : arena_alloc fresh 10 ≡ (some region_1, after_1)
    first = refl

    second : arena_alloc after_1 6000 ≡ (some region_2, after_2)
    second = refl

Reach-Holds_example : Holds after_2 (region_2 ∷ region_1 ∷ [])
Reach-Holds_example = Reach-Holds fresh-IsValid two_served

json_arena_reset-IsReset_example : IsReset after_2 (json_arena_reset after_2)
json_arena_reset-IsReset_example = json_arena_reset-IsReset after_2 Reach-Holds_example.valid

json_arena_trim-IsTrimmed_example :
    let (r, freed) = json_arena_trim after_2 in IsTrimmed (chain after_2) r freed
json_arena_trim-IsTrimmed_example = json_arena_trim-IsTrimmed after_2
