-- ===== src/Parser/SafeRound.antt =====
-- Every round of the loop of json_parse is safe, by the state of the top frame.
use s_json.Base.{
  ℕ, suc, ◌≤◌, ◌≡◌, refl, subst, List, [], ◌∷◌, Option, none, some, Bytes, All, length, arith, ◌==◌,
  if-cases,
}
use s_json.Error.{Result, ok, err}
use s_json.Text.Str.{JsonStr, parse_string}
use s_json.Text.Str.Shorter.{parse_string-shorter}
use s_json.Arena.{Arena}
use s_json.Number.{Fpu}
use s_json.Value.{JsonValue}
use s_json.Parser.{
  ParseState, ps_value, ps_arr_item, ps_arr_cont, ps_obj_key, ps_obj_colon, ps_obj_val, ps_obj_cont,
  Frame, Parser, Step, max_depth, skip_ws,
}
use s_json.Parser.Round.{
  close, arr_cont_step, key_found, obj_key_step, obj_colon_step, obj_cont_step, state_step,
  at_token, step,
}
use s_json.Parser.Invariant.{ArrayInside, ObjectInside, KeySet, IsBelow, TopState, IsValid, IsSafe}
use s_json.Parser.Safe.{running-Safe, push_value-Safe, deliver_closed-Safe}
use s_json.Parser.SafeValue.{length-skip_ws, value_step-Safe}

-- The stack under the top frame, where a byte `c` before `rest` is looked at.
module _ (below : List Frame) (rest : Bytes) (under : All IsBelow below)
    (shallow : suc (length below) ≤ max_depth) where
  close-Safe :
      (arena : Arena) (v : Option JsonValue)
      → (v ≡ none → ⊥)
      → IsSafe (suc (length rest)) (close below rest arena v)
  unfolding close
  close-Safe arena none h = absurd (h refl)
  close-Safe arena (some result) h =
      deliver_closed-Safe _ below rest arena result (omega arith) under shallow

  arr_cont_step-Safe :
      (frame : Frame) (c : ℕ) (arena : Arena)
      → ArrayInside frame.container
      → IsSafe (suc (length rest)) (arr_cont_step frame below c rest arena)
  unfolding arr_cont_step
  arr_cont_step-Safe frame c arena inside =
      if-cases (IsSafe _) (c == b']') _ _
        (λ _. close-Safe arena frame.container (λ e. subst ArrayInside e inside))
        λ _.
          if-cases (IsSafe _) (c == b',') _ _
            (λ _. push_value-Safe _ below rest (omega arith) under shallow _ arena inside) (λ _. tt)

  key_found-Safe :
      (frame : Frame) (arena : Arena) (r : Result (JsonStr × Bytes) × Arena)
      → ObjectInside frame.container
      → parse_string arena rest ≡ r
      → IsSafe (suc (length rest)) (key_found frame below r)
  unfolding key_found
  key_found-Safe frame arena (err s, a) inside e = tt
  key_found-Safe frame arena (ok (key, after), a) inside e =
      running-Safe _ below after (omega (arith, parse_string-shorter arena a rest e)) under shallow
        _ a (inside, tt)

  obj_key_step-Safe :
      (frame : Frame) (c : ℕ) (arena : Arena)
      → ObjectInside frame.container
      → IsSafe (suc (length rest)) (obj_key_step frame below c rest arena)
  unfolding obj_key_step
  obj_key_step-Safe frame c arena inside =
      if-cases (IsSafe _) (c == b'"') _ _ (λ _. key_found-Safe frame arena _ inside refl) (λ _. tt)

  obj_colon_step-Safe :
      (frame : Frame) (c : ℕ) (arena : Arena)
      → ObjectInside frame.container
      → KeySet frame.pending_key
      → IsSafe (suc (length rest)) (obj_colon_step frame below c rest arena)
  unfolding obj_colon_step
  obj_colon_step-Safe frame c arena inside set =
      if-cases (IsSafe _) (c == b':') _ _
        (λ _. push_value-Safe _ below rest (omega arith) under shallow _ arena (inside, set))
        (λ _. tt)

  obj_cont_step-Safe :
      (frame : Frame) (c : ℕ) (arena : Arena)
      → ObjectInside frame.container
      → IsSafe (suc (length rest)) (obj_cont_step frame below c rest arena)
  unfolding obj_cont_step
  obj_cont_step-Safe frame c arena inside =
      if-cases (IsSafe _) (c == b'}') _ _
        (λ _. close-Safe arena frame.container (λ e. subst ObjectInside e inside))
        λ _.
          if-cases (IsSafe _) (c == b',') _ _
            (λ _. running-Safe _ below rest (omega arith) under shallow _ arena inside) (λ _. tt)

  state_step-Safe :
      (fpu : Fpu) (state : ParseState) (frame : Frame) (c : ℕ) (arena : Arena)
      → TopState state frame.container frame.pending_key
      → IsSafe (suc (length rest)) (state_step fpu state frame below c rest arena)
  unfolding state_step
  state_step-Safe fpu ps_value frame c arena top =
      value_step-Safe below rest under shallow fpu frame c arena
  state_step-Safe fpu ps_arr_cont frame c arena top = arr_cont_step-Safe frame c arena top
  state_step-Safe fpu ps_obj_key frame c arena top = obj_key_step-Safe frame c arena top
  state_step-Safe fpu ps_obj_colon frame c arena (inside, set) =
      obj_colon_step-Safe frame c arena inside set
  state_step-Safe fpu ps_obj_cont frame c arena top = obj_cont_step-Safe frame c arena top
  state_step-Safe fpu ps_arr_item frame c arena top = tt
  state_step-Safe fpu ps_obj_val frame c arena top = tt

IsSafe-mono : (m n : ℕ) (s : Step) → m ≤ n → IsSafe m s → IsSafe n s
IsSafe-mono m n (Step.running p) le (v, lt) = (v, omega arith)
IsSafe-mono m n (Step.finished root rest arena) le h = tt
IsSafe-mono m n (Step.failing e arena) le h = tt
IsSafe-mono m n Step.fault le h = h

at_token-Safe :
    (fpu : Fpu) (p : Parser) (bytes : Bytes)
    → IsValid p
    → IsSafe (length bytes) (at_token fpu p.frame p.below p.arena bytes)
unfolding at_token
at_token-Safe fpu p [] v = tt
at_token-Safe fpu p (c ∷ rest) v =
    state_step-Safe p.below rest v.under v.shallow fpu p.frame.state p.frame c p.arena v.top

-- A round of the loop from a stack in which each frame below the top waits in an array for an item or in
-- an object for the value of its key, the top frame has the container and the key that its state needs,
-- every container has room for what it holds, and there are at most 64 frames: no undefined access is
-- made, and where the loop goes on, all of that holds again and there are fewer bytes left.
pub step-Safe : (fpu : Fpu) (p : Parser) → IsValid p → IsSafe (length p.rest) (step fpu p)
unfolding step
step-Safe fpu p v =
    IsSafe-mono _ _ _ (length-skip_ws p.rest) (at_token-Safe fpu p (skip_ws p.rest) v)
