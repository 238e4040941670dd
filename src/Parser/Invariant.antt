-- ===== src/Parser/Invariant.antt =====
-- What holds between two rounds of the loop of json_parse.
use s_json.Base.{ℕ, suc, ◌≤◌, ◌<◌, Option, none, some, All, length}
use s_json.Text.Str.{JsonStr}
use s_json.Value.{JsonValue, array, object, count_items, count_pairs}
use s_json.Parser.{
  ParseState, ps_value, ps_arr_item, ps_arr_cont, ps_obj_key, ps_obj_colon, ps_obj_val, ps_obj_cont,
  Frame, Parser, Step, running, finished, failing, fault, max_depth,
}

-- The container is an array whose items fit its capacity.
abbrev pub ArrayInside : Option JsonValue → Type 0
ArrayInside (some (array items cap)) = count_items items ≤ cap
ArrayInside _ = ⊥

-- The container is an object whose pairs fit its capacity.
abbrev pub ObjectInside : Option JsonValue → Type 0
ObjectInside (some (object pairs cap idx is_sorted)) = count_pairs pairs ≤ cap
ObjectInside _ = ⊥

abbrev pub KeySet : Option JsonStr → Type 0
KeySet (some key) = Unit
KeySet none = ⊥

-- What the state of the top frame says of its container and its key.
abbrev pub TopState : ParseState → Option JsonValue → Option JsonStr → Type 0
TopState ps_value v k = Unit
TopState ps_arr_cont v k = ArrayInside v
TopState ps_obj_key v k = ObjectInside v
TopState ps_obj_colon v k = ObjectInside v × KeySet k
TopState ps_obj_cont v k = ObjectInside v
TopState ps_arr_item v k = ⊥
TopState ps_obj_val v k = ⊥

-- A frame below the top waits for an item or for the value of its key.
abbrev pub BelowState : ParseState → Option JsonValue → Option JsonStr → Type 0
BelowState ps_arr_item v k = ArrayInside v
BelowState ps_obj_val v k = ObjectInside v × KeySet k
BelowState _ v k = ⊥

abbrev pub IsBelow : Frame → Type 0
IsBelow f = BelowState f.state f.container f.pending_key

pub record IsValid (p : Parser) : Type 0 where
  pub top : TopState p.frame.state p.frame.container p.frame.pending_key
  pub under : All IsBelow p.below
  pub shallow : suc (length p.below) ≤ max_depth

-- After a round from `n` bytes: no undefined access, and a loop that goes on is valid again, with fewer
-- bytes left.
abbrev pub IsSafe : ℕ → Step → Type 0
IsSafe n (running p) = IsValid p × (length p.rest < n)
IsSafe n (finished root rest arena) = Unit
IsSafe n (failing e arena) = Unit
IsSafe n fault = ⊥
