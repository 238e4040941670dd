-- ===== src/Build/Set.antt =====
-- What json_obj_set does to the pairs of an object.
use s_json.Base.{
  ℕ, suc, ◌≤◌, ◌<◌, ◌≡◌, ◌≢◌, ◌⊎◌, inl, inr, refl, sym, ap, subst, Bool, true, false, not, List, [],
  ◌∷◌, Option, none, some, Bytes, ltb, leb, ◌==◌, if◌then◌else◌, if-cases, Bool-cases, length,
  take-length, u32_mod, arith,
}
use s_json.Error.{JsonError, json_ok, Result, ok, err, not_found}
use s_json.Text.Hash.{json_fnv1a, fnv1a, fnv_from}
use s_json.Text.Str.{JsonStr, max_string_len}
use s_json.Text.Utf8.{valid_utf8}
use s_json.Arena.{Arena, Region, arena_alloc}
use s_json.Value.{
  JsonValue, object, Pairs, no_pairs, pair, count_pairs, append_pair, grow, obj_grow,
}
use s_json.Access.Linear.{
  IsKey, AllKeys, same_text, same_text-eq, first_named, key_matches-same_text, hash-key,
}
use s_json.Parser.Safe.{grow-lt, count-append_pair}
use s_json.Build.{
  Changed, replace, key_copy, with_copy, insert_pair, insert_grown, set_pair, obj_set,
}

pub same_text_refl : (a : Bytes) → same_text a a ≡ true
same_text_refl [] = refl
same_text_refl (x ∷ a) = ground (arith, same_text_refl a)

pub same_text-sym : (a b : Bytes) → same_text a b ≡ same_text b a
same_text-sym [] [] = refl
same_text-sym [] (y ∷ b) = refl
same_text-sym (x ∷ a) [] = refl
same_text-sym (x ∷ a) (y ∷ b) = ground (arith, same_text-sym a b)

-- No key stands twice.
abbrev pub NoTwice : Pairs → Type 0
NoTwice no_pairs = Unit
NoTwice (pair k v pairs) = (first_named k.text pairs ≡ err not_found) × NoTwice pairs

-- What a lookup gives where one key has a new value.
abbrev pub updated : Bytes → JsonValue → Pairs → Bytes → Result JsonValue
updated key val pairs other = if same_text key other then ok val else first_named other pairs

-- The pairs after the key got its value.
abbrev pub Updated : Bytes → JsonValue → Pairs → Pairs → Type 0
Updated key val pairs after =
    ((other : Bytes) → first_named other after ≡ updated key val pairs other)
    × (AllKeys after × (NoTwice pairs → NoTwice after))

lookup_first :
    (k : Bytes) (key other : Bytes) (v val : JsonValue) (later : Result JsonValue)
    → same_text k key ≡ false
    → (if same_text k other then ok v else if same_text key other then ok val else later)
      ≡ (if same_text key other then ok val else if same_text k other then ok v else later)
lookup_first k key other v val later h = elim (Bool-cases (same_text key other)) [
  | inl t ↦
      let e = same_text-eq key other t in
      let apart = subst (λ (o : Bytes). same_text k o ≡ false) e h in rw (t, apart) refl
  | inr f ↦ rw f refl
]

abbrev Replaced : Bytes → JsonValue → Pairs → Option Pairs → Type 0
Replaced key val pairs none = first_named key pairs ≡ err not_found
Replaced key val pairs (some after) =
    (count_pairs after ≡ count_pairs pairs) × Updated key val pairs after

Replaced-here :
    (key : Bytes) (val : JsonValue) (k : JsonStr) (v : JsonValue) (pairs : Pairs)
    → IsKey k
    → AllKeys pairs
    → same_text k.text key ≡ true
    → Replaced key val (pair k v pairs) (some (pair k val pairs))
unfolding count_pairs
Replaced-here key val k v pairs is keys t =
    let e = same_text-eq k.text key t in
    (
      refl,
      (
        (λ other.
            subst
              (λ (b : Bytes).
                (if same_text k.text other then ok val else first_named other pairs) ≡ (
                  if same_text b other
                  then ok val
                  else if same_text k.text other
                  then ok v
                  else first_named other pairs))
              e (go (same_text k.text other) (first_named other pairs))),
        ((is, keys), λ once. once),
      ),
    )
  where
    go :
        (b : Bool) (r : Result JsonValue)
        → (if b then ok val else r) ≡ (if b then ok val else if b then ok v else r)
    go true r = refl
    go false r = refl

pair-Updated :
    (key : Bytes) (val : JsonValue) (k : JsonStr) (v : JsonValue) (pairs after : Pairs)
    → IsKey k
    → same_text k.text key ≡ false
    → Updated key val pairs after
    → Updated key val (pair k v pairs) (pair k v after)
pair-Updated key val k v pairs after is f (lookup, (keys, once)) = (
  (λ other. rw (lookup other) (lookup_first k.text key other v val (first_named other pairs) f)),
  (
    (is, keys),
    λ (absent, rest). (rw (lookup k.text, same_text-sym key k.text, f) absent, once rest),
  ),
)

Replaced-later :
    (key : Bytes) (val : JsonValue) (k : JsonStr) (v : JsonValue) (pairs : Pairs) (r : Option Pairs)
    → IsKey k
    → same_text k.text key ≡ false
    → Replaced key val pairs r
    → Replaced key val
        (pair k v pairs)
        (elim r [ none ↦ none | some changed ↦ some (pair k v changed) ])
unfolding count_pairs
Replaced-later key val k v pairs none is f missing = rw f missing
Replaced-later key val k v pairs (some after) is f (count, changed) =
    (ap suc count, pair-Updated key val k v pairs after is f changed)

replace-Replaced :
    (key : Bytes) (val : JsonValue) (pairs : Pairs)
    → length key < u32_mod
    → AllKeys pairs
    → Replaced key val pairs (replace (fnv1a key) key (length key) val pairs)
unfolding replace
replace-Replaced key val no_pairs short keys = refl
replace-Replaced key val (pair k v pairs) short (is, keys) =
    rw (key_matches-same_text key k short is) (
      if-cases (Replaced key val (pair k v pairs)) (same_text k.text key) _ _
        (λ t. Replaced-here key val k v pairs is keys t)
        (λ f. Replaced-later key val k v pairs _ is f (replace-Replaced key val pairs short keys)))

pub missing_split :
    (b : Bool) (w : JsonValue) (r : Result JsonValue)
    → (if b then ok w else r) ≡ err not_found
    → (b ≡ false) × (r ≡ err not_found)
missing_split true w r h = cc
missing_split false w r h = (refl, h)

append-Updated :
    (key : Bytes) (val : JsonValue) (k : JsonStr) (pairs : Pairs)
    → k.text ≡ key
    → IsKey k
    → AllKeys pairs
    → first_named key pairs ≡ err not_found
    → Updated key val pairs (append_pair pairs k val)
unfolding append_pair
append-Updated key val k no_pairs e is keys missing = (
  (λ other. ap (λ (b : Bytes). if same_text b other then ok val else err not_found) e),
  ((is, tt), λ once. (refl, tt)),
)
append-Updated key val k (pair l w pairs) e is (here, keys) missing =
    let (f, absent) = missing_split (same_text l.text key) w (first_named key pairs) missing in
    pair-Updated key val l w pairs (append_pair pairs k val) here f
      (append-Updated key val k pairs e is keys absent)

-- The pairs after a call with this status: the key got its value, or nothing changed.
abbrev pub Outcome : Bytes → JsonValue → Pairs → Pairs → JsonError → Type 0
Outcome key val pairs after json_ok = Updated key val pairs after
Outcome key val pairs after _ = after ≡ pairs

-- The object is no longer marked as sorted, or it has the same indices and as many pairs as before.
abbrev pub KeepsOrder : Pairs → Option (List ℕ) → Bool → Pairs → Option (List ℕ) → Bool → Type 0
KeepsOrder pairs idx is_sorted after idx' is_sorted' =
    (is_sorted' ≡ false)
    ⊎ ((is_sorted' ≡ is_sorted) × ((idx' ≡ idx) × (count_pairs after ≡ count_pairs pairs)))

-- The object after a call that sets a key.
abbrev pub SetsKey : Bytes → JsonValue → Pairs → Option (List ℕ) → Bool → Changed → Type 0
SetsKey key val pairs idx is_sorted (e, (object after cap idx' is_sorted', a)) =
    KeepsOrder pairs idx is_sorted after idx' is_sorted'
    × ((count_pairs after ≤ cap) × Outcome key val pairs after e)
SetsKey key val pairs idx is_sorted _ = ⊥

hash_copied :
    (key : Bytes) → json_fnv1a (if length key == 0 then none else some key) (length key) ≡ fnv1a key
unfolding json_fnv1a fnv_from
hash_copied [] = refl
hash_copied (x ∷ key) =
    let some_left : (length (x ∷ key) == 0) ≡ false = ground arith in
    rw some_left (hash-key (x ∷ key))

-- Growth gives more room or an error.
abbrev pub Grows : ℕ → Result ℕ × Arena → Type 0
Grows cap (err e, a) = e ≢ json_ok
Grows cap (ok cap', a) = cap < cap'

grow_error :
    (size : ℕ) (arena : Arena) (cap : ℕ) {e : JsonError} {a : Arena}
    → grow size arena cap ≡ (err e, a)
    → e ≢ json_ok
unfolding grow
grow_error size arena cap h = ground arith

pub grow-Grows : (size : ℕ) (arena : Arena) (cap : ℕ) → Grows cap (grow size arena cap)
grow-Grows size arena cap =
    go (grow size arena cap) (λ e a h. grow_error size arena cap h)
      (λ c a h. grow-lt size arena cap h)
  where
    go :
        (r : Result ℕ × Arena)
        → ((e : JsonError) (a : Arena) → r ≡ (err e, a) → e ≢ json_ok)
        → ((c : ℕ) (a : Arena) → r ≡ (ok c, a) → cap < c)
        → Grows cap r
    go (err e, a) p q = p e a refl
    go (ok c, a) p q = q c a refl

module _ (key : Bytes) (val : JsonValue) (pairs : Pairs) (short : length key < u32_mod)
    (keys : AllKeys pairs) (idx : Option (List ℕ)) (is_sorted : Bool) where
  key_copy-IsKey : IsKey (key_copy key (length key))
  key_copy-IsKey = record { len_is = refl; short = short; hash_is = hash_copied key }

  -- A new pair stands at the end, and the object is not sorted.
  added :
      (cap : ℕ) (idx' : Option (List ℕ)) (a : Arena)
      → count_pairs pairs < cap
      → first_named key pairs ≡ err not_found
      → SetsKey key val pairs idx is_sorted
          (json_ok, (object (append_pair pairs (key_copy key (length key)) val) cap idx' false, a))
  added cap idx' a space missing = (
    inl refl,
    (
      omega (arith, count-append_pair pairs (key_copy key (length key)) val),
      append-Updated key val (key_copy key (length key)) pairs refl key_copy-IsKey keys missing,
    ),
  )

  with_copy-SetsKey :
      (cap : ℕ) (idx' : Option (List ℕ)) (is_sorted' : Bool) (r : Option Region × Arena)
      → KeepsOrder pairs idx is_sorted pairs idx' is_sorted'
      → count_pairs pairs < cap
      → first_named key pairs ≡ err not_found
      → SetsKey key val pairs idx is_sorted
          (with_copy (key_copy key (length key)) val pairs cap idx' is_sorted' r)
  with_copy-SetsKey cap idx' is_sorted' (none, a) order space missing = (order, (omega arith, refl))
  with_copy-SetsKey cap idx' is_sorted' (some region, a) order space missing =
      added cap idx' a space missing

  insert_pair-SetsKey :
      (cap : ℕ) (idx' : Option (List ℕ)) (is_sorted' : Bool) (a : Arena)
      → KeepsOrder pairs idx is_sorted pairs idx' is_sorted'
      → count_pairs pairs < cap
      → first_named key pairs ≡ err not_found
      → SetsKey key val pairs idx is_sorted
          (insert_pair key (length key) val pairs idx' is_sorted' cap a)
  unfolding insert_pair
  insert_pair-SetsKey cap idx' is_sorted' a order space missing =
      if-cases (SetsKey key val pairs idx is_sorted) (length key == 0) _ _
        (λ _. added cap idx' a space missing)
        (λ _.
          with_copy-SetsKey cap idx' is_sorted' (arena_alloc a (length key)) order space missing)

  insert_grown-SetsKey :
      (cap : ℕ) (r : Result ℕ × Arena)
      → count_pairs pairs ≤ cap
      → Grows cap r
      → first_named key pairs ≡ err not_found
      → SetsKey key val pairs idx is_sorted
          (insert_grown key (length key) val pairs cap idx is_sorted r)
  insert_grown-SetsKey cap (err e, a) inside fails missing =
      (inr (refl, (refl, refl)), (inside, refused e fails))
    where
      refused : (e : JsonError) → e ≢ json_ok → Outcome key val pairs pairs e
      refused json_ok n = absurd (n refl)
      refused _ n = refl
  insert_grown-SetsKey cap (ok cap', a) inside grows missing =
      insert_pair-SetsKey cap' none false a (inl refl) (omega (arith, grows)) missing

  set_pair-SetsKey :
      (cap : ℕ) (arena : Arena)
      → count_pairs pairs ≤ cap
      → SetsKey key val pairs idx is_sorted
          (set_pair key (length key) val pairs cap idx is_sorted arena)
  unfolding set_pair obj_grow
  set_pair-SetsKey cap arena inside =
      go (replace (json_fnv1a (some key) (length key)) key (length key) val pairs) (
        subst (λ (h : ℕ). Replaced key val pairs (replace h key (length key) val pairs))
          (sym (hash-key key)) (replace-Replaced key val pairs short keys))
    where
      go :
          (r : Option Pairs)
          → Replaced key val pairs r
          → SetsKey key val pairs idx is_sorted (elim r [
            | some changed ↦ (json_ok, (object changed cap idx is_sorted, arena))
            | none ↦
                if leb cap (count_pairs pairs)
                then insert_grown key (length key) val pairs cap idx is_sorted (obj_grow arena cap)
                else insert_pair key (length key) val pairs idx is_sorted cap arena
          ])
      go none missing =
          if-cases (SetsKey key val pairs idx is_sorted) (leb cap (count_pairs pairs)) _ _
            (λ _.
              insert_grown-SetsKey cap (obj_grow arena cap) inside (grow-Grows 24 arena cap)
                missing)
            (λ less.
              insert_pair-SetsKey cap idx is_sorted arena (inr (refl, (refl, refl))) (ground arith)
                missing)
      go (some changed) (count, done) = (inr (refl, (refl, count)), (omega (arith, count), done))

pub obj_set-SetsKey :
    (pairs : Pairs) (cap : ℕ) (idx : Option (List ℕ)) (is_sorted : Bool) (arena : Arena)
    (key : Bytes) (val : JsonValue)
    → AllKeys pairs
    → count_pairs pairs ≤ cap
    → SetsKey key val pairs idx is_sorted
        (obj_set (object pairs cap idx is_sorted) arena key (length key) val)
unfolding obj_set
obj_set-SetsKey pairs cap idx is_sorted arena key val keys inside = rw (take-length key) (
    if-cases (SetsKey key val pairs idx is_sorted) (ltb max_string_len (length key)) _ _
      (λ _. (inr (refl, (refl, refl)), (inside, refl)))
      λ small.
        if-cases (SetsKey key val pairs idx is_sorted) (not (valid_utf8 key)) _ _
          (λ _. (inr (refl, (refl, refl)), (inside, refl)))
          λ _. set_pair-SetsKey key val pairs (ground arith) keys idx is_sorted cap arena inside)
