-- ===== src/Parser.antt =====
-- The stack of json_parse of src/sJson.c: ParseState, ParseFrame and the delivery of a value to its
-- parent; also json__lex_skip_ws. The lexer's position is the rest of the input.
pub mod Round
pub mod Run
pub mod Invariant
pub mod Safe
pub mod SafeValue
pub mod SafeRound
pub mod Total
pub mod Memory
pub mod MemoryRound
pub mod MemoryRun
pub mod ArenaAfter
use s_json.Base.{
  ℕ, zero, suc, Bool, true, false, not, ◌&&◌, ◌||◌, List, [], ◌∷◌, Option, none, some, Bytes, ltb,
  leb, ◌==◌, if◌then◌else◌, length, take, codes,
}
use s_json.Error.{
  JsonError, json_ok, null_param, oom, invalid_json, unexpected_eof, depth_exceeded, node_limit,
  Result, ok, err,
}
use s_json.Text.Str.{JsonStr, parse_string}
use s_json.Arena.{Arena, max_nodes, new_node}
use s_json.Number.{Fpu, Number, ival, fval, parse_number, is_digit}
use s_json.Value.{
  JsonValue, null, boolean, integer, float, string, array, object, Items, no_items, Pairs, no_pairs,
  count_items, count_pairs, append_item, append_pair, arr_grow, obj_grow,
}

abbrev pub max_depth : ℕ
max_depth = 64

abbrev pub is_blank : ℕ → Bool
is_blank c = c == b' ' || c == 10 || c == 13 || c == 9

-- json__lex_skip_ws
unfoldable pub skip_ws : Bytes → Bytes
skip_ws [] = []
skip_ws (c ∷ rest) = if is_blank c then skip_ws rest else c ∷ rest

pub data ParseState : Type 0 where
  ps_value ps_arr_item ps_arr_cont ps_obj_key ps_obj_colon ps_obj_val ps_obj_cont : ParseState

-- ParseFrame. A container may be NULL, and a key is not there before it is read.
pub record Frame : Type 0 where
  pub container : Option JsonValue
  pub state : ParseState
  pub pending_key : Option JsonStr

-- The variables of the loop. `frame` is the top of the stack, `below` the frames under it, so the depth
-- is one more than their count. `root` is NULL until the loop is done.
pub record Parser : Type 0 where
  pub frame : Frame
  pub below : List Frame
  pub rest : Bytes
  pub arena : Arena

-- After one round: on with the loop; done, with the root; the error exit; or an access that C does not
-- define: a container that is NULL or of another type, a key that is not set, an index out of bounds.
pub data Step : Type 0 where
  running : Parser → Step
  finished : JsonValue → Bytes → Arena → Step
  failing : JsonError → Arena → Step
  fault : Step

-- A frame that expects a value.
abbrev pub value_frame : Frame
value_frame = record { container = none; state = ps_value; pending_key = none }

-- The test of the depth, and a frame for a value on top of `frame`.
unfoldable pub push_value : Frame → List Frame → Bytes → Arena → Step
push_value frame below rest arena =
    if leb max_depth (suc (length below))
    then failing depth_exceeded arena
    else running (record { frame = value_frame; below = frame ∷ below; rest = rest; arena = arena })

abbrev grown : Result ℕ × Arena → (ℕ → Arena → Step) → Step
grown (err e, a) next = failing e a
grown (ok cap, a) next = next cap a

-- `arr->items[arr->len++] = result` in an array of this capacity.
unfoldable pub store_item : Frame → List Frame → Bytes → JsonValue → Items → ℕ → Arena → Step
store_item parent below rest result items cap arena =
    if leb cap (count_items items)
    then fault
    else running (record {
      frame = record parent {
        container = some (array (append_item items result) cap);
        state = ps_arr_cont;
      };
      below = below;
      rest = rest;
      arena = arena;
    })

unfoldable pub add_item : Frame → List Frame → Bytes → Arena → JsonValue → Option JsonValue → Step
unfolding store_item
add_item parent below rest arena result (some (array items cap)) =
    if leb cap (count_items items)
    then grown (arr_grow arena cap) (store_item parent below rest result items)
    else store_item parent below rest result items cap arena
add_item parent below rest arena result _ = fault

unfoldable pub store_pair :
    Frame
    → List Frame
    → Bytes
    → JsonStr
    → JsonValue
    → Pairs
    → Option (List ℕ)
    → Bool
    → ℕ
    → Arena
    → Step
store_pair parent below rest key result pairs idx is_sorted cap arena =
    if leb cap (count_pairs pairs)
    then fault
    else running (record {
      frame = record parent {
        container = some (object (append_pair pairs key result) cap idx is_sorted);
        state = ps_obj_cont;
      };
      below = below;
      rest = rest;
      arena = arena;
    })

unfoldable pub add_pair :
    Frame → List Frame → Bytes → Arena → JsonValue → Option JsonStr → Option JsonValue → Step
unfolding store_pair
add_pair parent below rest arena result (some key) (some (object pairs cap idx is_sorted)) =
    if leb cap (count_pairs pairs)
    then grown (obj_grow arena cap) (store_pair parent below rest key result pairs none false)
    else store_pair parent below rest key result pairs idx is_sorted cap arena
add_pair parent below rest arena result _ _ = fault

-- A complete value goes to the parent frame, by its state; `other` is what happens where the parent
-- expects none.
unfoldable pub deliver : Step → Frame → List Frame → Bytes → Arena → JsonValue → ParseState → Step
unfolding add_item add_pair
deliver other parent below rest arena result ps_arr_item =
    add_item parent below rest arena result parent.container
deliver other parent below rest arena result ps_arr_cont =
    add_item parent below rest arena result parent.container
deliver other parent below rest arena result ps_obj_val =
    add_pair parent below rest arena result parent.pending_key parent.container
deliver other parent below rest arena result ps_value = other
deliver other parent below rest arena result ps_obj_key = other
deliver other parent below rest arena result ps_obj_colon = other
deliver other parent below rest arena result ps_obj_cont = other

-- deliver_to_parent: scalars and empty containers.
unfoldable pub deliver_to_parent : List Frame → Bytes → Arena → JsonValue → Step
unfolding deliver
deliver_to_parent [] rest arena result = finished result rest arena
deliver_to_parent (parent ∷ below) rest arena result =
    deliver (failing invalid_json arena) parent below rest arena result parent.state

-- After a closing bracket, a parent that expects a value ends the loop.
unfoldable pub closed_otherwise : ParseState → Bytes → Arena → JsonValue → Step
closed_otherwise ps_value rest arena result = finished result rest arena
closed_otherwise _ rest arena result = failing invalid_json arena

-- The delivery of an array or an object that is closed.
unfoldable pub deliver_closed : List Frame → Bytes → Arena → JsonValue → Step
unfolding deliver closed_otherwise
deliver_closed [] rest arena result = finished result rest arena
deliver_closed (parent ∷ below) rest arena result =
    let other = closed_otherwise parent.state rest arena result in
    deliver other parent below rest arena result parent.state
