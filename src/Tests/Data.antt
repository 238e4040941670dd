-- ===== src/Tests/Data.antt =====
-- Data that the witnesses share.
use s_json.Base.{true, false, none, [], length}
use s_json.Base.Int.{pos}
use s_json.Arena.{Arena, JsonAllocator}
use s_json.Number.{Fpu}

-- An arena of one small block, whose allocator grants every request.
abbrev pub demo_arena : Arena
demo_arena = record {
  before = [];
  current = record { cap = 4976; used = 0 };
  after = [];
  block_size = 5000;
  total_bytes = 0;
  node_count = 0;
  backing = record { has_alloc = true; has_free = true; grants = λ _ _. true };
  calls = 2;
}

-- Operations that serve where no double is looked at.
abbrev pub blank_fpu : Fpu
blank_fpu = record {
  of_uint64 = λ n. n;
  of_int64 = λ _. 0;
  to_int64 = λ _. pos 0;
  mul = λ a _. a;
  pow10_pos = λ _. 0;
  pow10_neg = λ _. 0;
  eq = λ _ _. false;
  lt = λ _ _. false;
  le = λ _ _. false;
  strtod = λ text. (0, length text);
  print_17g = λ _. none;
}

-- Grants every request.
abbrev pub libc : JsonAllocator
libc = record { has_alloc = true; has_free = true; grants = λ _ _. true }
