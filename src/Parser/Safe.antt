-- ===== src/Parser/Safe.antt =====
-- Every round of json_parse is safe.
use s_json.Base.{
  ℕ, suc, ◌≤◌, ◌<◌, ◌≡◌, refl, Bool, false, List, [], ◌∷◌, Option, none, some, Bytes, All, length,
  arith, leb, if-cases,
}
use s_json.Error.{Result, ok, err}
use s_json.Text.Str.{JsonStr}
use s_json.Arena.{Arena}
use s_json.Value.{
  JsonValue, null, boolean, integer, float, string, array, object, Items, Pairs, count_items,
  count_pairs, append_item, append_pair, grow, arr_grow, obj_grow, doubled, capped,
}
use s_json.Parser.{
  ParseState, ps_value, ps_arr_item, ps_arr_cont, ps_obj_key, ps_obj_colon, ps_obj_val, ps_obj_cont,
  Frame, Step, running, max_depth, push_value, grown, store_item, add_item, store_pair, add_pair,
  deliver, deliver_to_parent, deliver_closed,
}
use s_json.Parser.Invariant.{
  ArrayInside, ObjectInside, KeySet, IsBelow, BelowState, TopState, IsSafe,
}

-- Growth gives room for one more entry.
pub grow-lt :
    (size : ℕ) (arena : Arena) (cap : ℕ) {cap' : ℕ} {a : Arena}
    → grow size arena cap ≡ (ok cap', a)
    → cap < cap'
unfolding grow doubled capped
grow-lt size arena cap h = ground arith

pub count-append_item :
    (items : Items) (v : JsonValue) → count_items (append_item items v) ≡ suc (count_items items)
unfolding count_items append_item
count-append_item Items.no_items v = refl
count-append_item (Items.item w items) v = rw (count-append_item items v) refl

pub count-append_pair :
    (pairs : Pairs) (k : JsonStr) (v : JsonValue)
    → count_pairs (append_pair pairs k v) ≡ suc (count_pairs pairs)
unfolding count_pairs append_pair
count-append_pair Pairs.no_pairs k v = refl
count-append_pair (Pairs.pair l w pairs) k v = rw (count-append_pair pairs k v) refl

-- The stack under a frame, and the bytes that a round leaves.
module _ (n : ℕ) (below : List Frame) (rest : Bytes) (fewer : length rest < n)
    (under : All IsBelow below) (shallow : suc (length below) ≤ max_depth) where
  pub running-Safe :
      (frame : Frame) (arena : Arena)
      → TopState frame.state frame.container frame.pending_key
      → IsSafe n (running (record { frame = frame; below = below; rest = rest; arena = arena }))
  running-Safe frame arena top = (record { top = top; under = under; shallow = shallow }, fewer)

  pub push_value-Safe :
      (frame : Frame) (arena : Arena) → IsBelow frame → IsSafe n (push_value frame below rest arena)
  unfolding push_value
  push_value-Safe frame arena inside =
      if-cases (IsSafe n) (leb max_depth (suc (length below))) _ _ (λ h. tt)
        (λ h. (record { top = tt; under = (inside, under); shallow = ground arith }, fewer))

  store_item-Safe :
      (parent : Frame) (result : JsonValue) (items : Items) (cap : ℕ) (arena : Arena)
      → count_items items < cap
      → IsSafe n (store_item parent below rest result items cap arena)
  unfolding store_item
  store_item-Safe parent result items cap arena lt =
      if-cases (IsSafe n) (leb cap (count_items items)) _ _ (λ h. absurd (ground arith))
        (λ h. running-Safe _ arena (ground (arith, count-append_item items result)))

  add_item-Safe :
      (parent : Frame) (arena : Arena) (result : JsonValue) (v : Option JsonValue)
      → ArrayInside v
      → IsSafe n (add_item parent below rest arena result v)
  unfolding add_item arr_grow
  add_item-Safe parent arena result none inside = elim inside [ ]
  add_item-Safe parent arena result (some null) inside = elim inside [ ]
  add_item-Safe parent arena result (some (boolean _)) inside = elim inside [ ]
  add_item-Safe parent arena result (some (integer _)) inside = elim inside [ ]
  add_item-Safe parent arena result (some (float _)) inside = elim inside [ ]
  add_item-Safe parent arena result (some (string _)) inside = elim inside [ ]
  add_item-Safe parent arena result (some (object _ _ _ _)) inside = elim inside [ ]
  add_item-Safe parent arena result (some (array items cap)) inside =
      if-cases (IsSafe n) (leb cap (count_items items)) _ _
        (λ h. grown-Safe (grow 8 arena cap) refl)
        (λ h. store_item-Safe parent result items cap arena (ground arith))
    where
      grown-Safe :
          (g : Result ℕ × Arena)
          → grow 8 arena cap ≡ g
          → IsSafe n (grown g (store_item parent below rest result items))
      grown-Safe (ok cap', a) e =
          store_item-Safe parent result items cap' a (omega (arith, inside, grow-lt 8 arena cap e))
      grown-Safe (err s, a) e = tt

  store_pair-Safe :
      (parent : Frame) (key : JsonStr) (result : JsonValue) (pairs : Pairs) (idx : Option (List ℕ))
      (is_sorted : Bool) (cap : ℕ) (arena : Arena)
      → count_pairs pairs < cap
      → IsSafe n (store_pair parent below rest key result pairs idx is_sorted cap arena)
  unfolding store_pair
  store_pair-Safe parent key result pairs idx is_sorted cap arena lt =
      if-cases (IsSafe n) (leb cap (count_pairs pairs)) _ _ (λ h. absurd (ground arith))
        (λ h. running-Safe _ arena (ground (arith, count-append_pair pairs key result)))

  add_pair-Safe :
      (parent : Frame) (arena : Arena) (result : JsonValue) (k : Option JsonStr)
      (v : Option JsonValue)
      → KeySet k
      → ObjectInside v
      → IsSafe n (add_pair parent below rest arena result k v)
  unfolding add_pair obj_grow
  add_pair-Safe parent arena result none v set inside = elim set [ ]
  add_pair-Safe parent arena result (some key) none set inside = elim inside [ ]
  add_pair-Safe parent arena result (some key) (some null) set inside = elim inside [ ]
  add_pair-Safe parent arena result (some key) (some (boolean _)) set inside = elim inside [ ]
  add_pair-Safe parent arena result (some key) (some (integer _)) set inside = elim inside [ ]
  add_pair-Safe parent arena result (some key) (some (float _)) set inside = elim inside [ ]
  add_pair-Safe parent arena result (some key) (some (string _)) set inside = elim inside [ ]
  add_pair-Safe parent arena result (some key) (some (array _ _)) set inside = elim inside [ ]
  add_pair-Safe parent arena result (some key) (some (object pairs cap idx is_sorted)) set inside =
      if-cases (IsSafe n) (leb cap (count_pairs pairs)) _ _
        (λ h. grown-Safe (grow 24 arena cap) refl)
        (λ h. store_pair-Safe parent key result pairs idx is_sorted cap arena (ground arith))
    where
      grown-Safe :
          (g : Result ℕ × Arena)
          → grow 24 arena cap ≡ g
          → IsSafe n (grown g (store_pair parent below rest key result pairs none false))
      grown-Safe (ok cap', a) e =
          store_pair-Safe parent key result pairs none false cap' a
            (omega (arith, inside, grow-lt 24 arena cap e))
      grown-Safe (err s, a) e = tt

  deliver-Safe :
      (other : Step) (parent : Frame) (arena : Arena) (result : JsonValue) (state : ParseState)
      → BelowState state parent.container parent.pending_key
      → IsSafe n (deliver other parent below rest arena result state)
  unfolding deliver
  deliver-Safe other parent arena result ps_arr_item inside =
      add_item-Safe parent arena result parent.container inside
  deliver-Safe other parent arena result ps_obj_val (inside, set) =
      add_pair-Safe parent arena result parent.pending_key parent.container set inside
  deliver-Safe other parent arena result ps_value inside = elim inside [ ]
  deliver-Safe other parent arena result ps_arr_cont inside = elim inside [ ]
  deliver-Safe other parent arena result ps_obj_key inside = elim inside [ ]
  deliver-Safe other parent arena result ps_obj_colon inside = elim inside [ ]
  deliver-Safe other parent arena result ps_obj_cont inside = elim inside [ ]

pub deliver_to_parent-Safe :
    (n : ℕ) (below : List Frame) (rest : Bytes) (arena : Arena) (result : JsonValue)
    → length rest < n
    → All IsBelow below
    → suc (length below) ≤ max_depth
    → IsSafe n (deliver_to_parent below rest arena result)
unfolding deliver_to_parent
deliver_to_parent-Safe n [] rest arena result fewer under shallow = tt
deliver_to_parent-Safe n (parent ∷ below) rest arena result fewer (at, under) shallow =
    deliver-Safe n below rest fewer under (omega (arith, shallow)) _ parent arena result
      parent.state at

pub deliver_closed-Safe :
    (n : ℕ) (below : List Frame) (rest : Bytes) (arena : Arena) (result : JsonValue)
    → length rest < n
    → All IsBelow below
    → suc (length below) ≤ max_depth
    → IsSafe n (deliver_closed below rest arena result)
unfolding deliver_closed
deliver_closed-Safe n [] rest arena result fewer under shallow = tt
deliver_closed-Safe n (parent ∷ below) rest arena result fewer (at, under) shallow =
    deliver-Safe n below rest fewer under (omega (arith, shallow)) _ parent arena result
      parent.state at
