-- ===== src/Build/Lookup.antt =====
-- What the getters find after json_obj_set and json_arr_push.
use s_json.Base.{
  ℕ, zero, suc, ◌≤◌, ◌<◌, ◌≡◌, ◌≢◌, refl, sym, ap, ◌∙◌, subst, Bool, true, false, List, none, inl,
  inr, Option, some, Bytes, leb, ◌==◌, if◌then◌else◌, if-cases, length, u32_mod, arith,
}
use s_json.Error.{JsonError, json_ok, Result, ok, err}
use s_json.Arena.{Arena}
use s_json.Value.{
  JsonValue, array, object, Items, no_items, Pairs, count_pairs, count_items, append_item, arr_grow,
}
use s_json.Access.{json_obj_get_n, json_arr_get, nth_item}
use s_json.Access.Linear.{AllKeys, first_named, json_obj_get_n-first_named}
use s_json.Build.{Changed, stored, json_obj_set, json_arr_push, pushed}
use s_json.Access.Binary.{InRange}
use s_json.Build.Finalize.{InOrder}
use s_json.Build.Set.{
  NoTwice, Grows, grow-Grows, updated, Outcome, KeepsOrder, SetsKey, obj_set-SetsKey,
}

-- What a lookup gives after a call with this status.
abbrev pub after_set : JsonError → Bytes → JsonValue → Pairs → Bytes → Result JsonValue
after_set json_ok key val pairs other = updated key val pairs other
after_set _ key val pairs other = first_named other pairs

-- An object that is marked as sorted has the indices of all its pairs.
abbrev pub SortedAll : Pairs → Option (List ℕ) → Bool → Type 0
SortedAll pairs idx false = Unit
SortedAll pairs none true = ⊥
SortedAll pairs (some idx) true = InOrder pairs idx

-- An object: keys with their own lengths and hashes, none of them twice, within the capacity.
abbrev pub IsObject : Option JsonValue → Type 0
IsObject (some (object pairs cap idx is_sorted)) =
    AllKeys pairs × (NoTwice pairs × ((count_pairs pairs ≤ cap) × SortedAll pairs idx is_sorted))
IsObject _ = ⊥

SortedAll-KeepsOrder :
    (pairs after : Pairs) (idx idx' : Option (List ℕ)) (is_sorted is_sorted' : Bool)
    → KeepsOrder pairs idx is_sorted after idx' is_sorted'
    → SortedAll pairs idx is_sorted
    → SortedAll after idx' is_sorted'
SortedAll-KeepsOrder pairs after idx idx' is_sorted is_sorted' (inl unsorted) h =
    subst (SortedAll after idx') (sym unsorted) tt
SortedAll-KeepsOrder pairs after idx idx' is_sorted is_sorted' (inr (same, (kept, count))) h =
    subst (SortedAll after idx') (sym same)
      (subst (λ (i : Option (List ℕ)). SortedAll after i is_sorted) (sym kept) (go idx is_sorted h))
  where
    go : (i : Option (List ℕ)) (b : Bool) → SortedAll pairs i b → SortedAll after i b
    go i false h = tt
    go none true h = h
    go (some i) true h = subst (λ (n : ℕ). (length i ≡ n) × InRange n i) (sym count) h

module _ (key : Bytes) (val : JsonValue) (pairs : Pairs) (keys : AllKeys pairs) where
  Outcome-lookup :
      (e : JsonError) (after : Pairs) (other : Bytes)
      → Outcome key val pairs after e
      → first_named other after ≡ after_set e key val pairs other
  Outcome-lookup json_ok after other (lookup, rest) = lookup other
  Outcome-lookup _ after other same = ap (first_named other) same

  Outcome-AllKeys : (e : JsonError) (after : Pairs) → Outcome key val pairs after e → AllKeys after
  Outcome-AllKeys json_ok after (lookup, (fine, once)) = fine
  Outcome-AllKeys _ after same = subst AllKeys (sym same) keys

  Outcome-NoTwice :
      (e : JsonError) (after : Pairs)
      → Outcome key val pairs after e
      → NoTwice pairs
      → NoTwice after
  Outcome-NoTwice json_ok after (lookup, (fine, once)) h = once h
  Outcome-NoTwice _ after same h = subst NoTwice (sym same) h

  SetsKey-lookup :
      (idx : Option (List ℕ)) (r : Changed) (other : Bytes)
      → SetsKey key val pairs idx false r
      → length other < u32_mod
      → json_obj_get_n (stored r).1.0 (some other) (length other) true
        ≡ some (after_set (stored r).0 key val pairs other)
  SetsKey-lookup idx (e, (object after cap idx' false, a)) other (order, (inside, outcome)) short =
      json_obj_get_n-first_named after cap idx' other (Outcome-AllKeys e after outcome) short
      ∙ ap some (Outcome-lookup e after other outcome)
  SetsKey-lookup idx (e, (object after cap idx' true, a)) other (order, rest) short =
      absurd (no_order order)
    where
      no_order : KeepsOrder pairs idx false after idx' true → ⊥
      no_order (inl h) = cc
      no_order (inr (h, same)) = cc
  SetsKey-lookup idx _ other h short = absurd h

  SetsKey-IsObject :
      (idx : Option (List ℕ)) (is_sorted : Bool) (r : Changed)
      → SetsKey key val pairs idx is_sorted r
      → NoTwice pairs
      → SortedAll pairs idx is_sorted
      → IsObject (stored r).1.0
  SetsKey-IsObject idx is_sorted (e, (object after cap idx' is_sorted', a))
        (order, (inside, outcome)) once sorted =
      (
        Outcome-AllKeys e after outcome,
        (
          Outcome-NoTwice e after outcome once,
          (inside, SortedAll-KeepsOrder pairs after idx idx' is_sorted is_sorted' order sorted),
        ),
      )
  SetsKey-IsObject idx is_sorted _ h once sorted = absurd h

-- After json_obj_set on an unsorted object with proper keys, a lookup of any key gives the new value if
-- it is the key that was set and the call reports success, and what it gave before the call in every
-- other case: success replaces or adds this key alone, and a failure loses nothing.
pub json_obj_get_n-json_obj_set :
    (pairs : Pairs) (cap : ℕ) (idx : Option (List ℕ)) (arena : Arena) (key : Bytes)
    (val : JsonValue) (other : Bytes)
    → AllKeys pairs
    → count_pairs pairs ≤ cap
    → length other < u32_mod
    → let (status, (obj, a)) =
        json_obj_set
          (some (object pairs cap idx false))
          (some arena)
          (some key)
          (length key)
          (some val) in
      json_obj_get_n obj (some other) (length other) true
      ≡ some (after_set status key val pairs other)
unfolding json_obj_set
json_obj_get_n-json_obj_set pairs cap idx arena key val other keys inside short =
    SetsKey-lookup key val pairs keys idx _ other
      (obj_set-SetsKey pairs cap idx false arena key val keys inside) short

-- Whatever json_obj_set reports, and whether the object was sorted or not, it keeps the invariant of
-- objects: proper keys, none of them twice, no more pairs than the capacity, and, if the object is marked
-- as sorted, as many sorted indices as pairs, each of which names a pair.
pub json_obj_set-IsObject :
    (pairs : Pairs) (cap : ℕ) (idx : Option (List ℕ)) (is_sorted : Bool) (arena : Arena)
    (key : Bytes) (val : JsonValue)
    → IsObject (some (object pairs cap idx is_sorted))
    → IsObject
        (json_obj_set
          (some (object pairs cap idx is_sorted))
          (some arena)
          (some key)
          (length key)
          (some val)).1.0
unfolding json_obj_set
json_obj_set-IsObject pairs cap idx is_sorted arena key val (keys, (once, (inside, sorted))) =
    SetsKey-IsObject key val pairs keys idx is_sorted _
      (obj_set-SetsKey pairs cap idx is_sorted arena key val keys inside) once sorted

nth-append_item :
    (items : Items) (v : JsonValue) (i : ℕ)
    → nth_item i (append_item items v) ≡ (if i == count_items items then ok v else nth_item i items)
unfolding nth_item append_item count_items
nth-append_item no_items v zero = refl
nth-append_item no_items v (suc i) = ground arith
nth-append_item (Items.item w items) v zero = ground arith
nth-append_item (Items.item w items) v (suc i) = nth-append_item items v i ∙ ground arith

-- What an index gives after a push with this status.
abbrev pub after_push : JsonError → Items → JsonValue → ℕ → Result JsonValue
after_push json_ok items v i = if i == count_items items then ok v else nth_item i items
after_push _ items v i = nth_item i items

pushed-nth :
    (v : JsonValue) (items : Items) (cap : ℕ) (r : Result ℕ × Arena) (i : ℕ)
    → Grows cap r
    → json_arr_get (stored (pushed v items cap r)).1.0 i true
      ≡ after_push (stored (pushed v items cap r)).0 items v i
unfolding json_arr_get
pushed-nth v items cap (err e, a) i fails = refused e fails
  where
    refused : (e : JsonError) → e ≢ json_ok → nth_item i items ≡ after_push e items v i
    refused json_ok n = absurd (n refl)
    refused _ n = refl
pushed-nth v items cap (ok cap', a) i grows = nth-append_item items v i

-- After json_arr_push on an array, index `len` gives the new value if the call reports success, and every
-- other index what it gave before; after an error every index does.
pub json_arr_get-json_arr_push :
    (items : Items) (cap : ℕ) (arena : Arena) (v : JsonValue) (i : ℕ)
    → let (status, (arr, a)) = json_arr_push (some (array items cap)) (some arena) (some v) in
      json_arr_get arr i true ≡ after_push status items v i
unfolding json_arr_push json_arr_get arr_grow
json_arr_get-json_arr_push items cap arena v i =
    if-cases
      (λ (r : Changed). json_arr_get (stored r).1.0 i true ≡ after_push (stored r).0 items v i)
      (leb cap (count_items items)) _ _
      (λ _. pushed-nth v items cap (arr_grow arena cap) i (grow-Grows 8 arena cap))
      (λ _. nth-append_item items v i)
