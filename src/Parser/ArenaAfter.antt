-- ===== src/Parser/ArenaAfter.antt =====
-- The arena that json_parse leaves.
use s_json.Base.{
  ℕ, suc, ◌≤◌, ◌<◌, ◌≡◌, sym, subst, [], ◌∷◌, Option, none, some, Bytes, length, take, ltb, leb,
  if-cases, arith, Bool-cases, inl, inr,
}
use s_json.Arena.{
  Arena, Region, arena_alloc, new_node, count_node, align_up, sizeof_value, max_nodes,
  alloc_aligned, take_from, take_or_grow, append_block, block_new, block_from,
}
use s_json.Arena.Served.{IsValid, Outcome}
use s_json.Arena.Alloc.{arena_alloc-Outcome}
use s_json.Number.{Fpu}
use s_json.Value.{JsonValue}
use s_json.Parser.{Step, running, finished, failing, fault, skip_ws}
use s_json.Parser.Run.{
  run, Parsed, returned, undefined, finish, trailing, parse_text, json_parse, start_parser,
}
use s_json.Parser.MemoryRound.{StepKeeps}
use s_json.Parser.MemoryRun.{run-keeps}

-- The arena is valid, and has no more nodes than the limit.
pub record IsSound (a : Arena) : Type 0 where
  pub valid : IsValid a
  pub nodes : a.node_count ≤ max_nodes

Outcome-IsValid :
    (a a' : Arena) (size : ℕ) (r : Option Region) → IsValid a → Outcome a size r a' → IsValid a'
Outcome-IsValid a a' size (some r) v h = h.0
Outcome-IsValid a a' size none v h = subst IsValid (sym h) (record {
  blocks = v.blocks;
  counted = v.counted;
  bounded = v.bounded;
  block_size_le = v.block_size_le;
})

arena_alloc-node_count : (a : Arena) (n : ℕ) → (arena_alloc a n).1.node_count ≡ a.node_count
unfolding arena_alloc alloc_aligned take_or_grow append_block take_from block_new block_from
arena_alloc-node_count a n = ground arith

arena_alloc-IsSound : (a : Arena) (n : ℕ) → IsSound a → IsSound (arena_alloc a n).1
arena_alloc-IsSound a n s = record {
  valid =
      Outcome-IsValid a (arena_alloc a n).1 (align_up n) (arena_alloc a n).0 s.valid
        (arena_alloc-Outcome a n s.valid);
  nodes = omega (arith, s.nodes, arena_alloc-node_count a n);
}

count_node-IsSound :
    (r : Option Region × Arena)
    → IsSound r.1
    → r.1.node_count < max_nodes
    → IsSound (count_node r).1
unfolding count_node
count_node-IsSound (none, a) s lt = s
count_node-IsSound (some _, a) s lt = record {
  valid = record {
    blocks = s.valid.blocks;
    counted = s.valid.counted;
    bounded = s.valid.bounded;
    block_size_le = s.valid.block_size_le;
  };
  nodes = omega arith;
}

new_node-IsSound : (a : Arena) → IsSound a → IsSound (new_node a).1
unfolding new_node
new_node-IsSound a s = elim (Bool-cases (leb max_nodes a.node_count)) [
  | inl full ↦ rw full s
  | inr free ↦
      let less : a.node_count < max_nodes = ground arith in
      rw free (
        count_node-IsSound (arena_alloc a sizeof_value) (arena_alloc-IsSound a sizeof_value s)
          (omega (arith, less, arena_alloc-node_count a sizeof_value)))
]

-- The arena after json_parse; where a pointer to it was NULL there is none.
abbrev pub ArenaIsSound : Parsed → Type 0
ArenaIsSound (returned r none) = Unit
ArenaIsSound (returned r (some a)) = IsSound a
ArenaIsSound undefined = Unit

trailing-ArenaIsSound :
    (root : JsonValue) (a : Arena) (bytes : Bytes)
    → IsSound a
    → ArenaIsSound (trailing root a bytes)
unfolding trailing
trailing-ArenaIsSound root a [] s = s
trailing-ArenaIsSound root a (_ ∷ _) s = s

finish-ArenaIsSound : (s : Step) → StepKeeps IsSound s → ArenaIsSound (finish s)
unfolding finish
finish-ArenaIsSound (running p) h = tt
finish-ArenaIsSound fault h = tt
finish-ArenaIsSound (failing e a) h = h
finish-ArenaIsSound (finished root rest a) h = trailing-ArenaIsSound root a (skip_ws rest) h

parse_text-ArenaIsSound :
    (fpu : Fpu) (a : Arena) (text : Bytes) → IsSound a → ArenaIsSound (parse_text fpu a text)
unfolding parse_text
parse_text-ArenaIsSound fpu a text s =
    finish-ArenaIsSound (run fpu (suc (length text)) (running (start_parser a text))) (
      run-keeps IsSound arena_alloc-IsSound new_node-IsSound fpu (suc (length text))
        (running (start_parser a text)) s)

-- json_parse on a valid arena with at most JSON_MAX_NODES nodes leaves such an arena, whatever the
-- input and the failures of the backing allocator, and whether it returns a value or an error.
pub json_parse-ArenaIsSound :
    (fpu : Fpu) (a : Arena) (src : Option Bytes) (len : ℕ)
    → IsSound a
    → ArenaIsSound (json_parse fpu (some a) src len)
unfolding json_parse
json_parse-ArenaIsSound fpu a (some src) len s = parse_text-ArenaIsSound fpu a (take len src) s
json_parse-ArenaIsSound fpu a none len s =
    if-cases ArenaIsSound (ltb 0 len) _ _ (λ _. s) (λ _. parse_text-ArenaIsSound fpu a [] s)
