-- ===== src/Parser/MemoryRound.antt =====
-- What every allocation keeps of the arena, each round of the loop of json_parse keeps.
use s_json.Base.{
  ℕ, suc, Bool, false, List, [], ◌∷◌, Option, none, some, Bytes, length, leb, if-cases,
}
use s_json.Error.{Result, ok, err}
use s_json.Arena.{Arena, arena_alloc, new_node}
use s_json.Text.Str.{JsonStr}
use s_json.Value.{
  JsonValue, null, boolean, integer, float, string, array, object, grow, arr_grow, obj_grow,
  count_items, count_pairs, Items, Pairs,
}
use s_json.Parser.{
  Frame, ParseState, ps_value, ps_arr_item, ps_arr_cont, ps_obj_key, ps_obj_colon, ps_obj_val,
  ps_obj_cont, Step, running, finished, failing, fault, push_value, grown, store_item, store_pair,
  add_item, add_pair, deliver, deliver_to_parent, deliver_closed, closed_otherwise, max_depth,
}
use s_json.Parser.Round.{close}
use s_json.Parser.Memory.{grow-keeps}

-- The arena that a round leaves has the property.
abbrev pub StepKeeps {κ} : (Arena → Type κ) → Step → Type κ
StepKeeps P (running p) = P p.arena
StepKeeps P (finished root rest a) = P a
StepKeeps P (failing e a) = P a
StepKeeps P fault = Unit

module _ {κ} (P : Arena → Type κ) (alloc : (a : Arena) (n : ℕ) → P a → P (arena_alloc a n).1)
    (node : (a : Arena) → P a → P (new_node a).1) where
  pub push_value-keeps :
      (frame : Frame) (below : List Frame) (rest : Bytes) (a : Arena)
      → P a
      → StepKeeps P (push_value frame below rest a)
  unfolding push_value
  push_value-keeps frame below rest a h =
      if-cases (StepKeeps P) (leb max_depth (suc (length below))) _ _ (λ _. h) (λ _. h)

  grown-keeps :
      (r : Result ℕ × Arena) (next : ℕ → Arena → Step)
      → P r.1
      → ((cap : ℕ) (a : Arena) → P a → StepKeeps P (next cap a))
      → StepKeeps P (grown r next)
  grown-keeps (ok cap, a) next h k = k cap a h
  grown-keeps (err e, a) next h k = h

  store_item-keeps :
      (f : Frame) (below : List Frame) (rest : Bytes) (result : JsonValue) (items : Items) (cap : ℕ)
      (a : Arena)
      → P a
      → StepKeeps P (store_item f below rest result items cap a)
  unfolding store_item
  store_item-keeps f below rest result items cap a h =
      if-cases (StepKeeps P) (leb cap (count_items items)) _ _ (λ _. tt) (λ _. h)

  store_pair-keeps :
      (f : Frame) (below : List Frame) (rest : Bytes) (key : JsonStr) (result : JsonValue)
      (pairs : Pairs) (idx : Option (List ℕ)) (s : Bool) (cap : ℕ) (a : Arena)
      → P a
      → StepKeeps P (store_pair f below rest key result pairs idx s cap a)
  unfolding store_pair
  store_pair-keeps f below rest key result pairs idx s cap a h =
      if-cases (StepKeeps P) (leb cap (count_pairs pairs)) _ _ (λ _. tt) (λ _. h)

  add_item-keeps :
      (f : Frame) (below : List Frame) (rest : Bytes) (a : Arena) (result : JsonValue)
      (v : Option JsonValue)
      → P a
      → StepKeeps P (add_item f below rest a result v)
  unfolding add_item arr_grow
  add_item-keeps f below rest a result (some (array items cap)) h =
      if-cases (StepKeeps P) (leb cap (count_items items)) _ _
        (λ _.
          grown-keeps (grow 8 a cap) _ (grow-keeps P alloc 8 a cap h)
            (store_item-keeps f below rest result items))
        (λ _. store_item-keeps f below rest result items cap a h)
  add_item-keeps f below rest a result none h = tt
  add_item-keeps f below rest a result (some null) h = tt
  add_item-keeps f below rest a result (some (boolean _)) h = tt
  add_item-keeps f below rest a result (some (integer _)) h = tt
  add_item-keeps f below rest a result (some (float _)) h = tt
  add_item-keeps f below rest a result (some (string _)) h = tt
  add_item-keeps f below rest a result (some (object _ _ _ _)) h = tt

  add_pair-keeps :
      (f : Frame) (below : List Frame) (rest : Bytes) (a : Arena) (result : JsonValue)
      (k : Option JsonStr) (v : Option JsonValue)
      → P a
      → StepKeeps P (add_pair f below rest a result k v)
  unfolding add_pair obj_grow
  add_pair-keeps f below rest a result (some key) (some (object pairs cap idx s)) h =
      if-cases (StepKeeps P) (leb cap (count_pairs pairs)) _ _
        (λ _.
          grown-keeps (grow 24 a cap) _ (grow-keeps P alloc 24 a cap h)
            (store_pair-keeps f below rest key result pairs none false))
        (λ _. store_pair-keeps f below rest key result pairs idx s cap a h)
  add_pair-keeps f below rest a result none v h = tt
  add_pair-keeps f below rest a result (some key) none h = tt
  add_pair-keeps f below rest a result (some key) (some null) h = tt
  add_pair-keeps f below rest a result (some key) (some (boolean _)) h = tt
  add_pair-keeps f below rest a result (some key) (some (integer _)) h = tt
  add_pair-keeps f below rest a result (some key) (some (float _)) h = tt
  add_pair-keeps f below rest a result (some key) (some (string _)) h = tt
  add_pair-keeps f below rest a result (some key) (some (array _ _)) h = tt

  deliver-keeps :
      (other : Step) (f : Frame) (below : List Frame) (rest : Bytes) (a : Arena)
      (result : JsonValue) (s : ParseState)
      → P a
      → StepKeeps P other
      → StepKeeps P (deliver other f below rest a result s)
  unfolding deliver
  deliver-keeps other f below rest a result ps_arr_item h o =
      add_item-keeps f below rest a result f.container h
  deliver-keeps other f below rest a result ps_arr_cont h o =
      add_item-keeps f below rest a result f.container h
  deliver-keeps other f below rest a result ps_obj_val h o =
      add_pair-keeps f below rest a result f.pending_key f.container h
  deliver-keeps other f below rest a result ps_value h o = o
  deliver-keeps other f below rest a result ps_obj_key h o = o
  deliver-keeps other f below rest a result ps_obj_colon h o = o
  deliver-keeps other f below rest a result ps_obj_cont h o = o

  pub to_parent-keeps :
      (below : List Frame) (rest : Bytes) (a : Arena) (result : JsonValue)
      → P a
      → StepKeeps P (deliver_to_parent below rest a result)
  unfolding deliver_to_parent
  to_parent-keeps [] rest a result h = h
  to_parent-keeps (f ∷ below) rest a result h = deliver-keeps _ f below rest a result f.state h h

  otherwise-keeps :
      (s : ParseState) (rest : Bytes) (a : Arena) (result : JsonValue)
      → P a
      → StepKeeps P (closed_otherwise s rest a result)
  unfolding closed_otherwise
  otherwise-keeps ps_value rest a result h = h
  otherwise-keeps ps_arr_item rest a result h = h
  otherwise-keeps ps_arr_cont rest a result h = h
  otherwise-keeps ps_obj_key rest a result h = h
  otherwise-keeps ps_obj_colon rest a result h = h
  otherwise-keeps ps_obj_val rest a result h = h
  otherwise-keeps ps_obj_cont rest a result h = h

  pub close-keeps :
      (below : List Frame) (rest : Bytes) (a : Arena) (v : Option JsonValue)
      → P a
      → StepKeeps P (close below rest a v)
  unfolding close deliver_closed
  close-keeps below rest a none h = tt
  close-keeps [] rest a (some result) h = h
  close-keeps (f ∷ below) rest a (some result) h =
      deliver-keeps _ f below rest a result f.state h (otherwise-keeps f.state rest a result h)
