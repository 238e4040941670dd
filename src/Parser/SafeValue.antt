-- ===== src/Parser/SafeValue.antt =====
-- Where json_parse expects a value, its round is safe.
use s_json.Base.{
  ℕ, suc, ◌≤◌, ◌≡◌, refl, false, ◌||◌, List, [], ◌∷◌, Option, none, some, Bytes, All, length, arith,
  leb, ◌==◌, if-cases, codes,
}
use s_json.Error.{Result, ok, err}
use s_json.Text.Str.{JsonStr, parse_string}
use s_json.Text.Str.Shorter.{parse_string-shorter}
use s_json.Arena.{Arena, new_node}
use s_json.Number.{Fpu, Number, parse_number, is_digit}
use s_json.Number.Shorter.{parse_number-shorter}
use s_json.Value.{JsonValue, string, no_items, no_pairs, array, object, count_items, count_pairs}
use s_json.Parser.{
  ps_arr_item, ps_obj_key, Frame, Step, max_depth, skip_ws, push_value, deliver_to_parent,
}
use s_json.Parser.Round.{
  expect_literal, literal_value, string_value, number_value, number_node, closed_by, open_array,
  open_object, value_at, value_step,
}
use s_json.Parser.Invariant.{IsBelow, IsSafe}
use s_json.Parser.Safe.{running-Safe, push_value-Safe, deliver_to_parent-Safe}

pub length-skip_ws : (bytes : Bytes) → length (skip_ws bytes) ≤ length bytes
unfolding skip_ws
length-skip_ws [] = ground arith
length-skip_ws (c ∷ rest) = ground (arith, length-skip_ws rest)

length-expect_literal :
    (literal bytes rest : Bytes)
    → expect_literal literal bytes ≡ some rest
    → length rest ≤ length bytes
unfolding expect_literal
length-expect_literal [] bytes rest h = ground arith
length-expect_literal (l ∷ literal) [] rest h = ground arith
length-expect_literal (l ∷ literal) (c ∷ bytes) rest h =
    ground (arith, length-expect_literal literal bytes rest)

length-closed_by :
    (bracket : ℕ) (bytes : Bytes) {rest : Bytes}
    → closed_by bracket bytes ≡ some rest
    → length rest ≤ length bytes
unfolding closed_by
length-closed_by bracket [] h = ground arith
length-closed_by bracket (c ∷ bytes) h = ground arith

-- The stack under the top frame, where a byte `c` before `rest` is looked at.
module _ (below : List Frame) (rest : Bytes) (under : All IsBelow below)
    (shallow : suc (length below) ≤ max_depth) where
  literal_value-Safe :
      (arena : Arena) (node : JsonValue) (literal : Bytes) (r : Option Bytes)
      → expect_literal literal rest ≡ r
      → IsSafe (suc (length rest)) (literal_value below arena node r)
  unfolding literal_value
  literal_value-Safe arena node literal none e = tt
  literal_value-Safe arena node literal (some after) e =
      deliver_to_parent-Safe _ below after arena node
        (omega (arith, length-expect_literal literal rest after e)) under shallow

  string_value-Safe :
      (arena : Arena) (r : Result (JsonStr × Bytes) × Arena)
      → parse_string arena rest ≡ r
      → IsSafe (suc (length rest)) (string_value below r)
  unfolding string_value
  string_value-Safe arena (err s, a) e = tt
  string_value-Safe arena (ok (str, after), a) e =
      deliver_to_parent-Safe _ below after a (string str)
        (omega (arith, parse_string-shorter arena a rest e)) under shallow

  number_value-Safe :
      (fpu : Fpu) (arena : Arena) (c : ℕ) (r : Result (Number × Bytes) × Arena)
      → parse_number fpu arena (c ∷ rest) ≡ r
      → IsSafe (suc (length rest)) (number_value below r)
  unfolding number_value
  number_value-Safe fpu arena c (err s, a) e = tt
  number_value-Safe fpu arena c (ok (number, after), a) e =
      deliver_to_parent-Safe _ below after a (number_node number)
        (omega (arith, parse_number-shorter fpu arena a (c ∷ rest) e)) under shallow

  open_array-Safe :
      (frame : Frame) (arena : Arena)
      → IsSafe (suc (length rest)) (open_array frame below rest arena)
  unfolding open_array count_items
  open_array-Safe frame arena =
      if-cases (IsSafe _) (leb max_depth (suc (length below))) _ _ (λ h. tt) (λ h. inner _ refl)
    where
      inner :
          (r : Option Bytes)
          → closed_by b']' (skip_ws rest) ≡ r
          → IsSafe (suc (length rest)) (elim r [
            | some after ↦ deliver_to_parent below after arena (array no_items 0)
            | none ↦
                push_value
                  (record frame { container = some (array no_items 0); state = ps_arr_item })
                  below
                  (skip_ws rest)
                  arena
          ])
      inner none e =
          push_value-Safe _ below (skip_ws rest) (omega (arith, length-skip_ws rest)) under shallow
            _ arena (omega arith)
      inner (some after) e =
          deliver_to_parent-Safe _ below after arena _
            (omega (arith, length-skip_ws rest, length-closed_by b']' (skip_ws rest) e)) under
            shallow

  open_object-Safe :
      (frame : Frame) (arena : Arena)
      → IsSafe (suc (length rest)) (open_object frame below rest arena)
  unfolding open_object count_pairs
  open_object-Safe frame arena =
      if-cases (IsSafe _) (leb max_depth (suc (length below))) _ _ (λ h. tt) (λ h. inner _ refl)
    where
      inner :
          (r : Option Bytes)
          → closed_by b'}' (skip_ws rest) ≡ r
          → IsSafe (suc (length rest)) (elim r [
            | some after ↦ deliver_to_parent below after arena (object no_pairs 0 none false)
            | none ↦ Step.running (record {
              frame = record frame {
                container = some (object no_pairs 0 none false);
                state = ps_obj_key;
              };
              below = below;
              rest = skip_ws rest;
              arena = arena;
            })
          ])
      inner none e =
          running-Safe _ below (skip_ws rest) (omega (arith, length-skip_ws rest)) under shallow _
            arena (omega arith)
      inner (some after) e =
          deliver_to_parent-Safe _ below after arena _
            (omega (arith, length-skip_ws rest, length-closed_by b'}' (skip_ws rest) e)) under
            shallow

  value_at-Safe :
      (fpu : Fpu) (frame : Frame) (c : ℕ) (arena : Arena)
      → IsSafe (suc (length rest)) (value_at fpu frame below c rest arena)
  unfolding value_at
  value_at-Safe fpu frame c arena =
      if-cases P (c == b'n') _ _ (λ _. literal_value-Safe arena _ (codes "ull") _ refl)
        λ _.
          if-cases P (c == b't') _ _ (λ _. literal_value-Safe arena _ (codes "rue") _ refl)
            λ _.
              if-cases P (c == b'f') _ _ (λ _. literal_value-Safe arena _ (codes "alse") _ refl)
                λ _.
                  if-cases P (c == b'"') _ _ (λ _. string_value-Safe arena _ refl)
                    λ _.
                      if-cases P (c == b'-' || is_digit c) _ _
                        (λ _. number_value-Safe fpu arena c _ refl)
                        λ _.
                          if-cases P (c == b'[') _ _ (λ _. open_array-Safe frame arena)
                            λ _.
                              if-cases P (c == b'{') _ _ (λ _. open_object-Safe frame arena)
                                (λ _. tt)
    where
      P : Step → Type 0
      P = IsSafe (suc (length rest))

  pub value_step-Safe :
      (fpu : Fpu) (frame : Frame) (c : ℕ) (arena : Arena)
      → IsSafe (suc (length rest)) (value_step fpu frame below c rest arena)
  unfolding value_step
  value_step-Safe fpu frame c arena =
      if-cases (IsSafe (suc (length rest))) (new_node arena).0 _ _
        (λ _. value_at-Safe fpu frame c (new_node arena).1) (λ _. tt)
