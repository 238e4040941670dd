-- ===== src/Parser/Round.antt =====
-- One round of the loop of json_parse, by the state of the top frame.
use s_json.Base.{
  ℕ, suc, true, false, ◌||◌, List, [], ◌∷◌, Option, none, some, Bytes, leb, ◌==◌, if◌then◌else◌,
  length, codes,
}
use s_json.Error.{oom, invalid_json, unexpected_eof, depth_exceeded, node_limit, Result, ok, err}
use s_json.Text.Str.{JsonStr, parse_string}
use s_json.Arena.{Arena, max_nodes, new_node}
use s_json.Number.{Fpu, Number, ival, fval, parse_number, is_digit}
use s_json.Value.{
  JsonValue, null, boolean, integer, float, string, array, object, no_items, no_pairs,
}
use s_json.Parser.{
  max_depth, skip_ws, ParseState, ps_value, ps_arr_item, ps_arr_cont, ps_obj_key, ps_obj_colon,
  ps_obj_val, ps_obj_cont, Frame, Parser, Step, running, failing, fault, push_value,
  deliver_to_parent, deliver_closed,
}

-- LEX_EXPECT_LITERAL: what follows the literal.
unfoldable pub expect_literal : Bytes → Bytes → Option Bytes
expect_literal [] rest = some rest
expect_literal (l ∷ literal) [] = none
expect_literal (l ∷ literal) (c ∷ rest) =
    let more = expect_literal literal rest in if c == l then more else none

unfoldable pub literal_value : List Frame → Arena → JsonValue → Option Bytes → Step
unfolding deliver_to_parent
literal_value below arena node none = failing invalid_json arena
literal_value below arena node (some rest) = deliver_to_parent below rest arena node

unfoldable pub string_value : List Frame → Result (JsonStr × Bytes) × Arena → Step
unfolding deliver_to_parent
string_value below (err e, arena) = failing e arena
string_value below (ok (str, rest), arena) = deliver_to_parent below rest arena (string str)

abbrev pub number_node : Number → JsonValue
number_node (ival i) = integer i
number_node (fval f) = float f

unfoldable pub number_value : List Frame → Result (Number × Bytes) × Arena → Step
unfolding deliver_to_parent
number_value below (err e, arena) = failing e arena
number_value below (ok (number, rest), arena) =
    deliver_to_parent below rest arena (number_node number)

-- Whether the next byte is this one, and what follows it.
unfoldable pub closed_by : ℕ → Bytes → Option Bytes
closed_by bracket [] = none
closed_by bracket (c ∷ rest) = if c == bracket then some rest else none

-- Behind `[`: an empty array is delivered, else a frame for the first item is pushed.
unfoldable pub open_array : Frame → List Frame → Bytes → Arena → Step
unfolding deliver_to_parent push_value closed_by
open_array frame below rest arena =
    let node = array no_items 0 in
    let inside = record frame { container = some node; state = ps_arr_item } in
    if leb max_depth (suc (length below))
    then failing depth_exceeded arena
    else elim (closed_by b']' (skip_ws rest)) [
      | some after ↦ deliver_to_parent below after arena node
      | none ↦ push_value inside below (skip_ws rest) arena
    ]

-- Behind `{`: an empty object is delivered, else the frame expects a key.
unfoldable pub open_object : Frame → List Frame → Bytes → Arena → Step
unfolding deliver_to_parent closed_by
open_object frame below rest arena =
    let node = object no_pairs 0 none false in
    let inside = record frame { container = some node; state = ps_obj_key } in
    if leb max_depth (suc (length below))
    then failing depth_exceeded arena
    else elim (closed_by b'}' (skip_ws rest)) [
      | some after ↦ deliver_to_parent below after arena node
      | none ↦
          running (record { frame = inside; below = below; rest = skip_ws rest; arena = arena })
    ]

-- PS_VALUE at the byte `c`, with the node allocated.
unfoldable pub value_at : Fpu → Frame → List Frame → ℕ → Bytes → Arena → Step
unfolding literal_value string_value number_value open_array open_object expect_literal
value_at fpu frame below c rest arena =
    if c == b'n'
    then literal_value below arena null (expect_literal (codes "ull") rest)
    else if c == b't'
    then literal_value below arena (boolean true) (expect_literal (codes "rue") rest)
    else if c == b'f'
    then literal_value below arena (boolean false) (expect_literal (codes "alse") rest)
    else if c == b'"'
    then string_value below (parse_string arena rest)
    else if c == b'-' || is_digit c
    then number_value below (parse_number fpu arena (c ∷ rest))
    else if c == b'['
    then open_array frame below rest arena
    else if c == b'{'
    then open_object frame below rest arena
    else failing invalid_json arena

-- PS_VALUE
unfoldable pub value_step : Fpu → Frame → List Frame → ℕ → Bytes → Arena → Step
unfolding value_at
value_step fpu frame below c rest arena =
    let (made, a) = new_node arena in
    if made
    then value_at fpu frame below c rest a
    else failing (if leb max_nodes a.node_count then node_limit else oom) a

-- `result = frame->container`, and its delivery.
unfoldable pub close : List Frame → Bytes → Arena → Option JsonValue → Step
unfolding deliver_closed
close below rest arena none = fault
close below rest arena (some result) = deliver_closed below rest arena result

-- PS_ARR_CONT
unfoldable pub arr_cont_step : Frame → List Frame → ℕ → Bytes → Arena → Step
unfolding close push_value
arr_cont_step frame below c rest arena =
    if c == b']'
    then close below rest arena frame.container
    else if c == b','
    then push_value (record frame { state = ps_arr_item }) below rest arena
    else failing invalid_json arena

unfoldable pub key_found : Frame → List Frame → Result (JsonStr × Bytes) × Arena → Step
key_found frame below (err e, arena) = failing e arena
key_found frame below (ok (key, rest), arena) = running (record {
  frame = record frame { pending_key = some key; state = ps_obj_colon };
  below = below;
  rest = rest;
  arena = arena;
})

-- PS_OBJ_KEY
unfoldable pub obj_key_step : Frame → List Frame → ℕ → Bytes → Arena → Step
unfolding key_found
obj_key_step frame below c rest arena =
    if c == b'"'
    then key_found frame below (parse_string arena rest)
    else failing invalid_json arena

-- PS_OBJ_COLON
unfoldable pub obj_colon_step : Frame → List Frame → ℕ → Bytes → Arena → Step
unfolding push_value
obj_colon_step frame below c rest arena =
    if c == b':'
    then push_value (record frame { state = ps_obj_val }) below rest arena
    else failing invalid_json arena

-- PS_OBJ_CONT
unfoldable pub obj_cont_step : Frame → List Frame → ℕ → Bytes → Arena → Step
unfolding close
obj_cont_step frame below c rest arena =
    if c == b'}'
    then close below rest arena frame.container
    else if c == b','
    then running (record {
      frame = record frame { state = ps_obj_key };
      below = below;
      rest = rest;
      arena = arena;
    })
    else failing invalid_json arena

-- The switch on the state of the top frame, at the byte `c`.
unfoldable pub state_step : Fpu → ParseState → Frame → List Frame → ℕ → Bytes → Arena → Step
unfolding value_step arr_cont_step obj_key_step obj_colon_step obj_cont_step
state_step fpu ps_value frame below c rest arena = value_step fpu frame below c rest arena
state_step fpu ps_arr_cont frame below c rest arena = arr_cont_step frame below c rest arena
state_step fpu ps_obj_key frame below c rest arena = obj_key_step frame below c rest arena
state_step fpu ps_obj_colon frame below c rest arena = obj_colon_step frame below c rest arena
state_step fpu ps_obj_cont frame below c rest arena = obj_cont_step frame below c rest arena
state_step fpu ps_arr_item frame below c rest arena = failing invalid_json arena
state_step fpu ps_obj_val frame below c rest arena = failing invalid_json arena

-- Behind the blanks. At the end of the input, `root` is still NULL.
unfoldable pub at_token : Fpu → Frame → List Frame → Arena → Bytes → Step
unfolding state_step
at_token fpu frame below arena [] = failing unexpected_eof arena
at_token fpu frame below arena (c ∷ rest) = state_step fpu frame.state frame below c rest arena

unfoldable pub step : Fpu → Parser → Step
unfolding at_token skip_ws
step fpu p = at_token fpu p.frame p.below p.arena (skip_ws p.rest)
