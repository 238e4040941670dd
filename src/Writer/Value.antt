-- ===== src/Writer/Value.antt =====
-- json__write_value.
use s_json.Base.{
  ℕ, ◌+◌, ◌*◌, ◌%◌, Bool, true, false, not, ◌&&◌, List, [], ◌∷◌, Option, none, some, ltb, leb,
  if◌then◌else◌, get_elem?, codes, u64_mod,
}
use s_json.Error.{json_ok, oom, depth_exceeded, Result, ok, err}
use s_json.Text.Str.{JsonStr}
use s_json.Arena.{JsonAllocator, Arena, json_arena_create, arena_alloc}
use s_json.Number.{Fpu}
use s_json.Value.{
  JsonValue, null, boolean, integer, float, string, array, object, Items, no_items, item, Pairs,
  no_pairs, pair, count_pairs,
}
use s_json.Sort.{key_cmp}
use s_json.Sort.Introsort.{sort_indices, indices_from}
use s_json.Writer.{
  JsonWriter, Written, ◌then_write◌, jw_put, jw_puts, jw_indent, jw_int64, jw_double,
  jw_string_content,
}
use s_json.Parser.{max_depth}

pub record JsonWriteOpts : Type 0 where
  pub pretty : Bool
  pub indent : ℕ
  pub sort_keys : Bool
  pub ascii_only : Bool
  pub trailing_nl : Bool

-- The key of a member, and the call that writes its value.
abbrev pub Member : Type 0
Member = JsonStr × (JsonWriter → Written)

-- The line break before an entry or a closing bracket; the statuses are not looked at.
unfoldable pub line_break : JsonWriteOpts → ℕ → JsonWriter → JsonWriter
line_break opts depth w = if opts.pretty then (jw_indent (jw_put w 10).0 depth opts.indent).0 else w

-- The comma between entries; its status is not looked at.
abbrev pub comma_if : Bool → JsonWriter → JsonWriter
comma_if more w = if more then (jw_put w b',').0 else w

-- The key with its quotes and colon; no status is looked at.
unfoldable pub put_key : JsonWriteOpts → JsonStr → JsonWriter → JsonWriter
put_key opts key w =
    let quoted = (jw_put (jw_string_content (jw_put w b'"').0 key.text opts.ascii_only).0 b'"').0 in
    let colon = (jw_put quoted b':').0 in if opts.pretty then (jw_put colon b' ').0 else colon

abbrev pub is_more {ℓ} : {A : Type ℓ} → List A → Bool
is_more [] = false
is_more (_ ∷ _) = true

-- The loop over the pairs of an object.
unfoldable pub put_members : JsonWriteOpts → ℕ → List Member → JsonWriter → Written
unfolding line_break put_key
put_members opts depth [] w = (w, json_ok)
put_members opts depth ((key, put_value) ∷ members) w =
    put_value (put_key opts key (line_break opts (depth + 1) w)) then_write λ w'.
    put_members opts depth members (comma_if (is_more members) w')

-- The members that the indices name.
unfoldable pub in_order : List ℕ → List Member → List Member
in_order [] members = []
in_order (i ∷ idx) members = elim (get_elem? members i) [
  | none ↦ in_order idx members
  | some m ↦ m ∷ in_order idx members
]

-- The indices in the lexical order of their keys. The sort always returns (Sort/IntroPerm).
unfoldable pub lexical_order : Pairs → List ℕ
unfolding sort_indices indices_from
lexical_order pairs = elim (sort_indices (key_cmp true pairs) (count_pairs pairs)) [
  | none ↦ indices_from (count_pairs pairs) 0
  | some idx ↦ idx
]

-- The arena for the indices, created where it is not there yet.
unfoldable pub sort_arena_of : JsonAllocator → JsonWriter → Option Arena
sort_arena_of libc w = elim w.sort_arena [
  | none ↦ json_arena_create libc none 4096
  | some a ↦ some a
]

-- The order in which the pairs are written: `none` is that of insertion.
unfoldable pub order_for :
    JsonAllocator → JsonWriteOpts → Pairs → JsonWriter → Result (Option (List ℕ)) × JsonWriter
unfolding lexical_order sort_arena_of
order_for libc opts pairs w =
    let sorted : Result (Option (List ℕ)) × JsonWriter = elim (sort_arena_of libc w) [
      | none ↦ (err oom, w)
      | some a ↦
          let (region, a') = arena_alloc a (count_pairs pairs * 4 % u64_mod) in
          elim region [
            | none ↦ (err oom, record w { sort_arena = some a' })
            | some _ ↦ (ok (some (lexical_order pairs)), record w { sort_arena = some a' })
          ]
    ] in
    if opts.sort_keys && not w.measure_only && ltb 1 (count_pairs pairs)
    then sorted
    else (ok none, w)

abbrev pub arranged : Option (List ℕ) → List Member → List Member
arranged none members = members
arranged (some idx) members = in_order idx members

-- The end of an array or object: the line break where there are entries, and the bracket.
unfoldable pub close_bracket : JsonWriteOpts → ℕ → Bool → ℕ → JsonWriter → Written
unfolding line_break
close_bracket opts depth is_empty bracket w =
    jw_put (if is_empty then w else line_break opts depth w) bracket

-- An object, with the call for each of its values.
unfoldable pub put_object :
    JsonWriteOpts → ℕ → List Member → Result (Option (List ℕ)) × JsonWriter → Written
unfolding put_members close_bracket in_order
put_object opts depth members (err e, w) = (w, e)
put_object opts depth members (ok order, w) =
    jw_put w b'{'
    then_write (λ w1. put_members opts depth (arranged order members) w1)
    then_write λ w2. close_bracket opts depth (not (is_more members)) b'}' w2

unfoldable pub put_string : JsonWriteOpts → JsonStr → JsonWriter → Written
put_string opts s w =
    jw_put w b'"' then_write (λ w1. jw_string_content w1 s.text opts.ascii_only) then_write λ w2.
    jw_put w2 b'"'

abbrev pub is_no_items : Items → Bool
is_no_items no_items = true
is_no_items (item v items) = false

-- A container at `depth`, or the error of one too deep.
abbrev pub at_depth : ℕ → JsonWriter → Written → Written
at_depth depth w written = if leb max_depth depth then (w, depth_exceeded) else written

module _ (fpu : Fpu) (libc : JsonAllocator) (opts : JsonWriteOpts) where
  unfoldable mutual
    unfolding line_break order_for put_object put_string close_bracket

    -- json__write_value
    pub write_value : JsonValue → ℕ → JsonWriter → Written
    write_value null depth w = at_depth depth w (jw_puts w (codes "null"))
    write_value (boolean b) depth w =
        at_depth depth w (jw_puts w (if b then codes "true" else codes "false"))
    write_value (integer i) depth w = at_depth depth w (jw_int64 w i)
    write_value (float f) depth w = at_depth depth w (jw_double fpu w f)
    write_value (string s) depth w = at_depth depth w (put_string opts s w)
    write_value (array items cap) depth w = at_depth depth w (
        jw_put w b'[' then_write (λ w1. write_items items depth w1) then_write λ w2.
        close_bracket opts depth (is_no_items items) b']' w2)
    write_value (object pairs cap idx is_sorted) depth w =
        at_depth depth w
          (put_object opts depth (members_of pairs (depth + 1)) (order_for libc opts pairs w))

    -- The loop over the items of an array at `depth`.
    pub write_items : Items → ℕ → JsonWriter → Written
    write_items no_items depth w = (w, json_ok)
    write_items (item v items) depth w =
        write_value v (depth + 1) (line_break opts (depth + 1) w) then_write λ w'.
        write_items items depth (comma_if (not (is_no_items items)) w')

    -- The calls that write the values of an object, at their depth.
    pub members_of : Pairs → ℕ → List Member
    members_of no_pairs depth = []
    members_of (pair key v pairs) depth = (key, write_value v depth) ∷ members_of pairs depth
