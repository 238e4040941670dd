-- ===== src/Compat/Owned.antt =====
-- The count of an owner over any sequence of calls.
use s_json.Base.{
  ℕ, zero, suc, ◌+◌, ◌-◌, ◌*◌, ◌/◌, ◌%◌, ◌≤◌, ◌<◌, ◌≡◌, refl, ap, subst, Bool, true, false, List,
  [], ◌∷◌, ◌++◌, Option, none, some, Bytes, ltb, ◌==◌, if-cases, Bool-cases, inl, inr, length,
  length-append, get_elem?, size_max, u64_mod, arith,
}
use s_json.Base.Arrays.{length-set, get_elem?-lt}
use s_json.Base.Int.{ℤ, pos, negsuc}
use s_json.Error.{Result, ok, err}
use s_json.Arena.{JsonAllocator, Arena, Region, arena_alloc, json_arena_create}
use s_json.Number.{Fpu}
use s_json.Value.{JsonValue}
use s_json.Access.{json_arr_get, json_obj_get, json_get_string}
use s_json.Parser.Run.{Parsed, returned, undefined, json_parse}
use s_json.Compat.{
  Owner, CJson, Heap, Got, granted, added, filled_item, sjson_cjson_wrap, remove, counted_down,
  deleted, cjson_delete, rooted, parsed_in, without_nul, cjson_parse_with_length,
}
use s_json.Compat.Calls.{
  wrapped, in_item, at_index, found, at_key, cjson_get_array_item, cjson_get_object_item, kept_text,
  copied_text, string_in, string_at, cjson_get_string_value,
}

-- The owner of this many items: it counts them, and it is freed when there are none.
abbrev pub Counts : Option Owner → ℕ → Type 0
Counts none n = n ≡ 0
Counts (some o) n = (o.references ≡ n) × ((0 < n) × (n < u64_mod))

abbrev pub Holds : Heap → Type 0
Holds heap = Counts heap.owner (length heap.items)

-- The memory after a call that returned.
abbrev pub GotHolds {ℓ} : {A : Type ℓ} → Option (A × Heap) → Type 0
GotHolds none = Unit
GotHolds (some (r, heap)) = Holds heap

added-Holds :
    (item : CJson) (heap : Heap) (owner : Option Owner)
    → suc (length heap.items) < u64_mod
    → Counts owner (length heap.items)
    → GotHolds (added item heap owner)
added-Holds item heap none few h = tt
added-Holds item heap (some o) few (count, (more, fits)) =
    let longer = length-append heap.items (item ∷ []) in
    (omega (arith, longer), (omega (arith, longer), omega (arith, longer)))

wrap-Holds :
    (fpu : Fpu) (has_memory : Bool) (heap : Heap) (v : Option JsonValue) (owns : Bool)
    → Holds heap
    → GotHolds (sjson_cjson_wrap fpu has_memory heap v owns)
unfolding sjson_cjson_wrap
wrap-Holds fpu has_memory heap v owns h =
    if-cases GotHolds (granted has_memory heap) _ _
      (λ g. added-Holds (filled_item fpu v owns) heap heap.owner (ground arith) h) (λ _. h)

wrapped-Holds :
    (fpu : Fpu) (has_memory : Bool) (heap : Heap) (r : Result JsonValue)
    → Holds heap
    → GotHolds (wrapped fpu has_memory heap r)
wrapped-Holds fpu has_memory heap (err e) h = h
wrapped-Holds fpu has_memory heap (ok v) h = wrap-Holds fpu has_memory heap (some v) false h

in_item-Holds :
    (heap : Heap) (i : Option ℕ) (get : CJson → Got)
    → Holds heap
    → ((item : CJson) → GotHolds (get item))
    → GotHolds (in_item heap i get)
in_item-Holds heap none get h k = h
in_item-Holds heap (some i) get h k = go (get_elem? heap.items i)
  where
    go : (x : Option CJson) → GotHolds (elim x [ none ↦ none | some item ↦ get item ])
    go none = tt
    go (some item) = k item

array_item-Holds :
    (fpu : Fpu) (has_memory : Bool) (heap : Heap) (arr : Option ℕ) (index : ℤ)
    → Holds heap
    → GotHolds (cjson_get_array_item fpu has_memory heap arr index)
unfolding cjson_get_array_item
array_item-Holds fpu has_memory heap arr index h =
    in_item-Holds heap arr (at_index fpu has_memory heap index) h (go index)
  where
    go : (i : ℤ) (item : CJson) → GotHolds (at_index fpu has_memory heap i item)
    go (negsuc n) item = h
    go (pos n) item = wrapped-Holds fpu has_memory heap (json_arr_get item.value n true) h

object_item-Holds :
    (fpu : Fpu) (has_memory : Bool) (heap : Heap) (obj : Option ℕ) (key : Option Bytes)
    → Holds heap
    → GotHolds (cjson_get_object_item fpu has_memory heap obj key)
unfolding cjson_get_object_item
object_item-Holds fpu has_memory heap obj key h =
    in_item-Holds heap obj (at_key fpu has_memory heap key) h (go key)
  where
    found-Holds : (r : Option (Result JsonValue)) → GotHolds (found fpu has_memory heap r)
    found-Holds none = tt
    found-Holds (some r) = wrapped-Holds fpu has_memory heap r h

    go : (k : Option Bytes) (item : CJson) → GotHolds (at_key fpu has_memory heap k item)
    go none item = h
    go (some k) item = found-Holds (json_obj_get item.value (some k) true)

copied_text-Holds :
    (heap : Heap) (i : ℕ) (item : CJson) (text : Option Bytes) (owner : Option Owner)
    (bytes : Bytes × ℕ)
    → Holds heap
    → Counts owner (length heap.items)
    → GotHolds (copied_text heap i item text owner bytes)
copied_text-Holds heap i item (some text) owner (bytes, len) h c = h
copied_text-Holds heap i item none none (bytes, len) h c = tt
copied_text-Holds heap i item none (some o) (bytes, len) h c = go (arena_alloc o.arena (len + 1))
  where
    go : (r : Option Region × Arena) → GotHolds (kept_text heap i item o bytes r)
    go (none, a) = c
    go (some x, a) =
        let same =
          length-set heap.items i (record item { valuestring = some (bytes ++ (0 ∷ [])) }) in
        rw same c

string_in-Holds :
    (heap : Heap) (i : Option ℕ) → Holds heap → GotHolds (cjson_get_string_value heap i)
unfolding cjson_get_string_value
string_in-Holds heap none h = h
string_in-Holds heap (some i) h = go (get_elem? heap.items i)
  where
    text : (item : CJson) (r : Result (Bytes × ℕ)) → GotHolds (string_in heap i item r)
    text item (err e) = h
    text item (ok bytes) = copied_text-Holds heap i item item.valuestring heap.owner bytes h h

    go : (x : Option CJson) → GotHolds (string_at heap i x)
    go none = tt
    go (some item) = text item (json_get_string item.value true)

length-remove :
    (items : List CJson) (i : ℕ) → i < length items → suc (length (remove items i)) ≡ length items
unfolding remove
length-remove [] i h = absurd (omega arith)
length-remove (x ∷ items) zero h = refl
length-remove (x ∷ items) (suc i) h = ap suc (length-remove items i (omega arith))

-- A deletion that C defines: one item less, and an owner that counts the rest.
abbrev pub Deletes : Heap → Option Heap → Type 0
Deletes heap none = ⊥
Deletes heap (some after) = (suc (length after.items) ≡ length heap.items) × Holds after

delete-Deletes :
    (heap : Heap) (i : ℕ)
    → Holds heap
    → i < length heap.items
    → Deletes heap (cjson_delete heap (some i))
unfolding cjson_delete
delete-Deletes heap i h inside =
    go (get_elem? heap.items i) heap.owner (get_elem?-lt heap.items i inside) h
  where
    left :
        (o : Owner)
        → Counts (some o) (length heap.items)
        → Counts (counted_down o) (length (remove heap.items i))
    left o (count, (more, fits)) =
        let fewer = length-remove heap.items i inside in
        let counted : (o.references + size_max) % u64_mod ≡ length (remove heap.items i) =
          omega (arith, count, fewer, more, fits) in
        if-cases (λ (owner : Option Owner). Counts owner (length (remove heap.items i)))
          ((o.references + size_max) % u64_mod == 0) _ _ (λ z. ground (arith, counted))
          (λ n. (counted, (ground (arith, counted), omega (arith, fewer, fits))))

    go :
        (x : Option CJson) (owner : Option Owner)
        → ((item : CJson) × (x ≡ some item))
        → Counts owner (length heap.items)
        → Deletes heap (deleted heap i x owner)
    go none owner (item, e) c = cc
    go (some item) none e c = absurd (omega (arith, c))
    go (some item) (some o) e c = (length-remove heap.items i inside, left o c)

get_elem?-past : (items : List CJson) (i : ℕ) → length items ≤ i → get_elem? items i ≡ none
get_elem?-past [] i h = refl
get_elem?-past (x ∷ items) zero h = absurd (omega arith)
get_elem?-past (x ∷ items) (suc i) h = get_elem?-past items i (omega arith)

not_deleted : (heap : Heap) (i : ℕ) → length heap.items ≤ i → cjson_delete heap (some i) ≡ none
unfolding cjson_delete
not_deleted heap i past =
    ap (λ (x : Option CJson). deleted heap i x heap.owner) (get_elem?-past heap.items i past)

item_deleted-Holds :
    (heap : Heap) (i : ℕ) {after : Heap}
    → Holds heap
    → cjson_delete heap (some i) ≡ some after
    → Holds after
item_deleted-Holds heap i h e = elim (Bool-cases (ltb i (length heap.items))) [
  | inl inside ↦ (subst (Deletes heap) e (delete-Deletes heap i h (ground arith))).1
  | inr past ↦ let gone = not_deleted heap i (ground arith) in cc
]

-- The memory after a text is parsed.
abbrev pub ParsedHolds : Option (Option Heap) → Type 0
ParsedHolds none = Unit
ParsedHolds (some none) = Unit
ParsedHolds (some (some heap)) = Holds heap

without_bytes :
    (fpu : Fpu) (has_memory : Bool × Bool) (value : Bytes) (len : ℕ) (made : Option Arena)
    → ParsedHolds (parsed_in fpu has_memory value len made)
unfolding sjson_cjson_wrap
without_bytes fpu has_memory value len none = tt
without_bytes fpu has_memory value len (some arena) =
    go has_memory (json_parse fpu (some arena) (some value) len)
  where
    go : (m : Bool × Bool) (p : Parsed) → ParsedHolds (rooted fpu m p arena)
    go m undefined = tt
    go m (returned (err e) a) = tt
    go (true, true) (returned (ok root) a) = (refl, (omega arith, omega arith))
    go (true, false) (returned (ok root) a) = tt
    go (false, m) (returned (ok root) a) = tt

parse-Holds :
    (fpu : Fpu) (libc : JsonAllocator) (has_memory : Bool × Bool) (value : Option Bytes) (len : ℕ)
    → ParsedHolds (cjson_parse_with_length fpu libc has_memory value len)
unfolding cjson_parse_with_length
parse-Holds fpu libc has_memory none len = tt
parse-Holds fpu libc has_memory (some value) len =
    let n = without_nul value len in
    if-cases ParsedHolds (ltb ((size_max - 65536) / 3) n) _ _ (λ _. tt)
      (λ _. without_bytes fpu has_memory value n (json_arena_create libc none (n * 3 + 65536)))

-- The memory that calls on one parsed text lead to, in any order.
pub data Reach (fpu : Fpu) (libc : JsonAllocator) : Heap → Type 0 where
  parsed :
      {h : Heap} (has_memory : Bool × Bool) (value : Option Bytes) (len : ℕ)
      → cjson_parse_with_length fpu libc has_memory value len ≡ some (some h)
      → Reach fpu libc h
  array_item :
      {h h' : Heap} {r : Option CJson}
      → Reach fpu libc h
      → (has_memory : Bool) (i : Option ℕ) (index : ℤ)
      → cjson_get_array_item fpu has_memory h i index ≡ some (r, h')
      → Reach fpu libc h'
  object_item :
      {h h' : Heap} {r : Option CJson}
      → Reach fpu libc h
      → (has_memory : Bool) (i : Option ℕ) (key : Option Bytes)
      → cjson_get_object_item fpu has_memory h i key ≡ some (r, h')
      → Reach fpu libc h'
  string_text :
      {h h' : Heap} {r : Option Bytes}
      → Reach fpu libc h
      → (i : Option ℕ) → cjson_get_string_value h i ≡ some (r, h')
      → Reach fpu libc h'
  item_deleted :
      {h h' : Heap}
      → Reach fpu libc h
      → (i : ℕ) → cjson_delete h (some i) ≡ some h'
      → Reach fpu libc h'

module _ (fpu : Fpu) (libc : JsonAllocator) where
  -- In every state that any sequence of parsing, lookups, reads of texts and deletions of live items leads to,
  -- whichever requests for memory are granted, the owner's count is the number of items that are not
  -- deleted, and the owner is freed, with its arena, exactly when none is left.
  pub Reach-Counts : (h : Heap) → Reach fpu libc h → Counts h.owner (length h.items)
  Reach-Counts h (parsed has_memory value len e) =
      subst ParsedHolds e (parse-Holds fpu libc has_memory value len)
  Reach-Counts h (array_item {h = h0} r has_memory i index e) =
      subst GotHolds e (array_item-Holds fpu has_memory h0 i index (Reach-Counts h0 r))
  Reach-Counts h (object_item {h = h0} r has_memory i key e) =
      subst GotHolds e (object_item-Holds fpu has_memory h0 i key (Reach-Counts h0 r))
  Reach-Counts h (string_text {h = h0} r i e) =
      subst GotHolds e (string_in-Holds h0 i (Reach-Counts h0 r))
  Reach-Counts h (item_deleted {h = h0} r i e) = item_deleted-Holds h0 i (Reach-Counts h0 r) e

  -- In every such state, deleting an item that is still there uses no freed memory and leaves one item
  -- less; the arena is destroyed exactly by the deletion of the last item.
  pub cjson_delete-Deletes :
      (h : Heap) (i : ℕ)
      → Reach fpu libc h
      → i < length h.items
      → Deletes h (cjson_delete h (some i))
  cjson_delete-Deletes h i r inside = delete-Deletes h i (Reach-Counts h r) inside
