-- ===== src/Parser/MemoryRun.antt =====
-- The arena after json_parse.
use s_json.Base.{
  ℕ, zero, suc, false, ◌||◌, List, [], ◌∷◌, Option, none, some, Bytes, length, leb, ◌==◌, if-cases,
}
use s_json.Error.{Result, ok, err}
use s_json.Arena.{Arena, arena_alloc, new_node}
use s_json.Text.Str.{JsonStr}
use s_json.Number.{Fpu, Number, is_digit}
use s_json.Value.{JsonValue, string, array, object, no_items, no_pairs}
use s_json.Parser.{
  Frame, Parser, ParseState, ps_value, ps_arr_item, ps_arr_cont, ps_obj_key, ps_obj_colon,
  ps_obj_val, ps_obj_cont, Step, running, finished, failing, fault, deliver_to_parent, max_depth,
  skip_ws,
}
use s_json.Parser.Round.{
  literal_value, string_value, number_value, number_node, closed_by, open_array, open_object,
  value_at, value_step, arr_cont_step, key_found, obj_key_step, obj_colon_step, obj_cont_step,
  state_step, at_token, step,
}
use s_json.Parser.Run.{run}
use s_json.Parser.Memory.{parse_string-keeps, parse_number-keeps}
use s_json.Parser.MemoryRound.{StepKeeps, push_value-keeps, to_parent-keeps, close-keeps}

module _ {κ} (P : Arena → Type κ) (alloc : (a : Arena) (n : ℕ) → P a → P (arena_alloc a n).1)
    (node : (a : Arena) → P a → P (new_node a).1) where
  literal_value-keeps :
      (below : List Frame) (a : Arena) (v : JsonValue) (r : Option Bytes)
      → P a
      → StepKeeps P (literal_value below a v r)
  unfolding literal_value
  literal_value-keeps below a v none h = h
  literal_value-keeps below a v (some rest) h = to_parent-keeps P alloc node below rest a v h

  string_value-keeps :
      (below : List Frame) (r : Result (JsonStr × Bytes) × Arena)
      → P r.1
      → StepKeeps P (string_value below r)
  unfolding string_value
  string_value-keeps below (err e, a) h = h
  string_value-keeps below (ok (str, rest), a) h =
      to_parent-keeps P alloc node below rest a (string str) h

  number_value-keeps :
      (below : List Frame) (r : Result (Number × Bytes) × Arena)
      → P r.1
      → StepKeeps P (number_value below r)
  unfolding number_value
  number_value-keeps below (err e, a) h = h
  number_value-keeps below (ok (n, rest), a) h =
      to_parent-keeps P alloc node below rest a (number_node n) h

  key_found-keeps :
      (f : Frame) (below : List Frame) (r : Result (JsonStr × Bytes) × Arena)
      → P r.1
      → StepKeeps P (key_found f below r)
  unfolding key_found
  key_found-keeps f below (err e, a) h = h
  key_found-keeps f below (ok (key, rest), a) h = h

  closed_or-keeps :
      (below : List Frame) (a : Arena) (v : JsonValue) (r : Option Bytes) (other : Step)
      → P a
      → StepKeeps P other
      → let out : Step = elim r [ some after ↦ deliver_to_parent below after a v | none ↦ other ] in
        StepKeeps P out
  closed_or-keeps below a v none other h o = o
  closed_or-keeps below a v (some after) other h o = to_parent-keeps P alloc node below after a v h

  open_array-keeps :
      (f : Frame) (below : List Frame) (rest : Bytes) (a : Arena)
      → P a
      → StepKeeps P (open_array f below rest a)
  unfolding open_array
  open_array-keeps f below rest a h =
      if-cases (StepKeeps P) (leb max_depth (suc (length below))) _ _ (λ _. h)
        λ _.
          closed_or-keeps below a (array no_items 0) (closed_by b']' (skip_ws rest)) _ h
            (push_value-keeps P alloc node _ below (skip_ws rest) a h)

  open_object-keeps :
      (f : Frame) (below : List Frame) (rest : Bytes) (a : Arena)
      → P a
      → StepKeeps P (open_object f below rest a)
  unfolding open_object
  open_object-keeps f below rest a h =
      if-cases (StepKeeps P) (leb max_depth (suc (length below))) _ _ (λ _. h)
        λ _.
          closed_or-keeps below a (object no_pairs 0 none false) (closed_by b'}' (skip_ws rest))
            (running (record {
              frame = record f {
                container = some (object no_pairs 0 none false);
                state = ps_obj_key;
              };
              below = below;
              rest = skip_ws rest;
              arena = a;
            }))
            h h

  value_at-keeps :
      (fpu : Fpu) (f : Frame) (below : List Frame) (c : ℕ) (rest : Bytes) (a : Arena)
      → P a
      → StepKeeps P (value_at fpu f below c rest a)
  unfolding value_at
  value_at-keeps fpu f below c rest a h =
      if-cases (StepKeeps P) (c == b'n') _ _ (λ _. literal_value-keeps below a _ _ h)
        λ _.
          if-cases (StepKeeps P) (c == b't') _ _ (λ _. literal_value-keeps below a _ _ h)
            λ _.
              if-cases (StepKeeps P) (c == b'f') _ _ (λ _. literal_value-keeps below a _ _ h)
                λ _.
                  if-cases (StepKeeps P) (c == b'"') _ _
                    (λ _. string_value-keeps below _ (parse_string-keeps P alloc a rest h))
                    λ _.
                      if-cases (StepKeeps P) (c == b'-' || is_digit c) _ _
                        (λ _.
                          number_value-keeps below _
                            (parse_number-keeps P alloc fpu a (c ∷ rest) h))
                        λ _.
                          if-cases (StepKeeps P) (c == b'[') _ _
                            (λ _. open_array-keeps f below rest a h)
                            λ _.
                              if-cases (StepKeeps P) (c == b'{') _ _
                                (λ _. open_object-keeps f below rest a h) (λ _. h)

  value_step-keeps :
      (fpu : Fpu) (f : Frame) (below : List Frame) (c : ℕ) (rest : Bytes) (a : Arena)
      → P a
      → StepKeeps P (value_step fpu f below c rest a)
  unfolding value_step
  value_step-keeps fpu f below c rest a h =
      if-cases (StepKeeps P) (new_node a).0 _ _
        (λ _. value_at-keeps fpu f below c rest (new_node a).1 (node a h)) (λ _. node a h)

  state_step-keeps :
      (fpu : Fpu) (s : ParseState) (f : Frame) (below : List Frame) (c : ℕ) (rest : Bytes)
      (a : Arena)
      → P a
      → StepKeeps P (state_step fpu s f below c rest a)
  unfolding state_step arr_cont_step obj_key_step obj_colon_step obj_cont_step
  state_step-keeps fpu ps_value f below c rest a h = value_step-keeps fpu f below c rest a h
  state_step-keeps fpu ps_arr_cont f below c rest a h =
      if-cases (StepKeeps P) (c == b']') _ _
        (λ _. close-keeps P alloc node below rest a f.container h)
        λ _.
          if-cases (StepKeeps P) (c == b',') _ _
            (λ _. push_value-keeps P alloc node _ below rest a h) (λ _. h)
  state_step-keeps fpu ps_obj_key f below c rest a h =
      if-cases (StepKeeps P) (c == b'"') _ _
        (λ _. key_found-keeps f below _ (parse_string-keeps P alloc a rest h)) (λ _. h)
  state_step-keeps fpu ps_obj_colon f below c rest a h =
      if-cases (StepKeeps P) (c == b':') _ _ (λ _. push_value-keeps P alloc node _ below rest a h)
        (λ _. h)
  state_step-keeps fpu ps_obj_cont f below c rest a h =
      if-cases (StepKeeps P) (c == b'}') _ _
        (λ _. close-keeps P alloc node below rest a f.container h)
        λ _. if-cases (StepKeeps P) (c == b',') _ _ (λ _. h) (λ _. h)
  state_step-keeps fpu ps_arr_item f below c rest a h = h
  state_step-keeps fpu ps_obj_val f below c rest a h = h

  at_token-keeps :
      (fpu : Fpu) (f : Frame) (below : List Frame) (a : Arena) (bytes : Bytes)
      → P a
      → StepKeeps P (at_token fpu f below a bytes)
  unfolding at_token
  at_token-keeps fpu f below a [] h = h
  at_token-keeps fpu f below a (c ∷ rest) h = state_step-keeps fpu f.state f below c rest a h

  step-keeps : (fpu : Fpu) (p : Parser) → P p.arena → StepKeeps P (step fpu p)
  unfolding step
  step-keeps fpu p h = at_token-keeps fpu p.frame p.below p.arena (skip_ws p.rest) h

  pub run-keeps : (fpu : Fpu) (fuel : ℕ) (s : Step) → StepKeeps P s → StepKeeps P (run fpu fuel s)
  unfolding run
  run-keeps fpu zero s h = h
  run-keeps fpu (suc fuel) (running p) h = run-keeps fpu fuel (step fpu p) (step-keeps fpu p h)
  run-keeps fpu (suc fuel) (finished root rest a) h = h
  run-keeps fpu (suc fuel) (failing e a) h = h
  run-keeps fpu (suc fuel) fault h = h
