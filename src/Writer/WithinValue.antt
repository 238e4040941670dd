-- ===== src/Writer/WithinValue.antt =====
-- json__write_value stays within the buffer.
use s_json.Base.{
  ℕ, zero, suc, ◌+◌, ◌*◌, ◌%◌, Bool, not, ◌&&◌, List, [], ◌∷◌, Option, none, some, ltb, leb,
  if◌then◌else◌, if-cases, All, get_elem?, codes, u64_mod,
}
use s_json.Error.{oom, Result, ok, err}
use s_json.Text.Str.{JsonStr}
use s_json.Arena.{JsonAllocator, Arena, Region, arena_alloc}
use s_json.Number.{Fpu}
use s_json.Value.{
  JsonValue, null, boolean, integer, float, string, array, object, Items, no_items, item, Pairs,
  no_pairs, pair, count_pairs,
}
use s_json.Parser.{max_depth}
use s_json.Writer.{JsonWriter, Written, ◌then_write◌, jw_put, jw_string_content}
use s_json.Writer.Value.{
  JsonWriteOpts, Member, line_break, comma_if, put_key, is_more, put_members, in_order,
  lexical_order, sort_arena_of, order_for, arranged, close_bracket, put_object, put_string,
  is_no_items, at_depth, write_value, write_items, members_of,
}
use s_json.Writer.Within.{
  Within, Keeps, Stays, then_write-Within, jw_put-Keeps, jw_puts-Keeps, jw_indent-Keeps,
  jw_int64-Keeps, jw_double-Keeps, jw_string_content-Keeps,
}

line_break-Stays : (opts : JsonWriteOpts) (depth : ℕ) → Stays (λ w. line_break opts depth w)
unfolding line_break
line_break-Stays opts depth cap w h =
    if-cases (Within cap) opts.pretty _ _
      (λ _. jw_indent-Keeps depth opts.indent cap (jw_put w 10).0 (jw_put-Keeps 10 cap w h))
      (λ _. h)

comma_if-Stays : (more : Bool) → Stays (λ w. comma_if more w)
comma_if-Stays more cap w h =
    if-cases (Within cap) more _ _ (λ _. jw_put-Keeps b',' cap w h) (λ _. h)

put_key-Stays : (opts : JsonWriteOpts) (key : JsonStr) → Stays (λ w. put_key opts key w)
unfolding put_key
put_key-Stays opts key cap w h =
    let open_quote = jw_put w b'"' in
    let content = jw_string_content open_quote.0 key.text opts.ascii_only in
    let close_quote = jw_put content.0 b'"' in
    let colon = jw_put close_quote.0 b':' in
    let h1 = jw_put-Keeps b'"' cap w h in
    let h2 = jw_string_content-Keeps key.text opts.ascii_only cap open_quote.0 h1 in
    let h3 = jw_put-Keeps b'"' cap content.0 h2 in
    let h4 = jw_put-Keeps b':' cap close_quote.0 h3 in
    if-cases (Within cap) opts.pretty _ _ (λ _. jw_put-Keeps b' ' cap colon.0 h4) (λ _. h4)

abbrev pub AllKeep : List Member → Type 0
AllKeep members = All (λ m. Keeps m.1) members

put_members-Keeps :
    (opts : JsonWriteOpts) (depth : ℕ) (members : List Member)
    → AllKeep members
    → Keeps (λ w. put_members opts depth members w)
unfolding put_members
put_members-Keeps opts depth [] ks cap w h = h
put_members-Keeps opts depth ((key, put_value) ∷ members) (k, ks) cap w h =
    then_write-Within cap (put_value (put_key opts key (line_break opts (depth + 1) w)))
      (λ w'. put_members opts depth members (comma_if (is_more members) w'))
      (k cap _ (
        put_key-Stays opts key cap (line_break opts (depth + 1) w)
          (line_break-Stays opts (depth + 1) cap w h)))
      λ c w' h'.
        put_members-Keeps opts depth members ks c (comma_if (is_more members) w')
          (comma_if-Stays (is_more members) c w' h')

member-Keeps :
    (members : List Member) (i : ℕ)
    → AllKeep members
    → elim (get_elem? members i) as (λ _. Type 0) [ none ↦ Unit | some m ↦ Keeps m.1 ]
member-Keeps [] i ks = tt
member-Keeps (m ∷ members) zero (k, ks) = k
member-Keeps (m ∷ members) (suc i) (k, ks) = member-Keeps members i ks

in_order-AllKeep :
    (idx : List ℕ) (members : List Member) → AllKeep members → AllKeep (in_order idx members)
unfolding in_order
in_order-AllKeep [] members ks = tt
in_order-AllKeep (i ∷ idx) members ks =
    go (get_elem? members i) (member-Keeps members i ks) (in_order-AllKeep idx members ks)
  where
    go :
        (x : Option Member)
        → elim x as (λ _. Type 0) [ none ↦ Unit | some m ↦ Keeps m.1 ]
        → AllKeep (in_order idx members)
        → AllKeep (elim x [ none ↦ in_order idx members | some m ↦ m ∷ in_order idx members ])
    go none k rest = rest
    go (some m) k rest = (k, rest)

arranged-AllKeep :
    (order : Option (List ℕ)) (members : List Member)
    → AllKeep members
    → AllKeep (arranged order members)
arranged-AllKeep none members ks = ks
arranged-AllKeep (some idx) members ks = in_order-AllKeep idx members ks

close_bracket-Keeps :
    (opts : JsonWriteOpts) (depth : ℕ) (is_empty : Bool) (bracket : ℕ)
    → Keeps (λ w. close_bracket opts depth is_empty bracket w)
unfolding close_bracket
close_bracket-Keeps opts depth is_empty bracket cap w h =
    jw_put-Keeps bracket cap (if is_empty then w else line_break opts depth w)
      (if-cases (Within cap) is_empty _ _ (λ _. h) (λ _. line_break-Stays opts depth cap w h))

put_string-Keeps : (opts : JsonWriteOpts) (s : JsonStr) → Keeps (λ w. put_string opts s w)
unfolding put_string
put_string-Keeps opts s cap w h =
    then_write-Within cap
      (jw_put w b'"' then_write λ w1. jw_string_content w1 s.text opts.ascii_only)
      (λ w2. jw_put w2 b'"')
      (then_write-Within cap (jw_put w b'"') (λ w1. jw_string_content w1 s.text opts.ascii_only)
        (jw_put-Keeps b'"' cap w h) (jw_string_content-Keeps s.text opts.ascii_only))
      (jw_put-Keeps b'"')

put_object-Within :
    (opts : JsonWriteOpts) (depth : ℕ) (members : List Member) (cap : ℕ)
    (r : Result (Option (List ℕ)) × JsonWriter)
    → AllKeep members
    → Within cap r.1
    → Within cap (put_object opts depth members r).0
unfolding put_object
put_object-Within opts depth members cap (err e, w) ks h = h
put_object-Within opts depth members cap (ok order, w) ks h =
    then_write-Within cap
      (jw_put w b'{' then_write λ w1. put_members opts depth (arranged order members) w1)
      (λ w2. close_bracket opts depth (not (is_more members)) b'}' w2)
      (then_write-Within cap (jw_put w b'{')
        (λ w1. put_members opts depth (arranged order members) w1) (jw_put-Keeps b'{' cap w h)
        (put_members-Keeps opts depth (arranged order members) (arranged-AllKeep order members ks)))
      (close_bracket-Keeps opts depth (not (is_more members)) b'}')

order_for-Within :
    (libc : JsonAllocator) (opts : JsonWriteOpts) (pairs : Pairs) (cap : ℕ) (w : JsonWriter)
    → Within cap w
    → Within cap (order_for libc opts pairs w).1
unfolding order_for
order_for-Within libc opts pairs cap w h =
    if-cases (λ (r : Result (Option (List ℕ)) × JsonWriter). Within cap r.1)
      (opts.sort_keys && not w.measure_only && ltb 1 (count_pairs pairs)) _ _
      (λ _. with_arena (sort_arena_of libc w)) (λ _. h)
  where
    with_region :
        (r : Option Region) (a : Arena)
        → let out : Result (Option (List ℕ)) × JsonWriter = elim r [
          | none ↦ (err oom, record w { sort_arena = some a })
          | some _ ↦ (ok (some (lexical_order pairs)), record w { sort_arena = some a })
        ] in
          Within cap out.1
    with_region none a = h
    with_region (some _) a = h

    with_arena :
        (made : Option Arena)
        → let out : Result (Option (List ℕ)) × JsonWriter = elim made [
          | none ↦ (err oom, w)
          | some a ↦
              let (region, a') = arena_alloc a (count_pairs pairs * 4 % u64_mod) in
              elim region [
                | none ↦ (err oom, record w { sort_arena = some a' })
                | some _ ↦ (ok (some (lexical_order pairs)), record w { sort_arena = some a' })
              ]
        ] in
          Within cap out.1
    with_arena none = h
    with_arena (some a) =
        let (region, a') = arena_alloc a (count_pairs pairs * 4 % u64_mod) in with_region region a'

at_depth-Keeps :
    (depth : ℕ) (f : JsonWriter → Written) → Keeps f → Keeps (λ w. at_depth depth w (f w))
at_depth-Keeps depth f k cap w h =
    if-cases (λ (r : Written). Within cap r.0) (leb max_depth depth) _ _ (λ _. h) (λ _. k cap w h)

module _ (fpu : Fpu) (libc : JsonAllocator) (opts : JsonWriteOpts) where
  mutual
    unfolding write_value write_items members_of

    pub write_value-Keeps :
        (v : JsonValue) (depth : ℕ) → Keeps (λ w. write_value fpu libc opts v depth w)
    write_value-Keeps null depth = at_depth-Keeps depth _ (jw_puts-Keeps (codes "null"))
    write_value-Keeps (boolean b) depth =
        at_depth-Keeps depth _ (jw_puts-Keeps (if b then codes "true" else codes "false"))
    write_value-Keeps (integer i) depth = at_depth-Keeps depth _ (jw_int64-Keeps i)
    write_value-Keeps (float f) depth = at_depth-Keeps depth _ (jw_double-Keeps fpu f)
    write_value-Keeps (string s) depth = at_depth-Keeps depth _ (put_string-Keeps opts s)
    write_value-Keeps (array items size) depth = at_depth-Keeps depth _ λ cap w h.
        then_write-Within cap
          (jw_put w b'[' then_write λ w1. write_items fpu libc opts items depth w1)
          (λ w2. close_bracket opts depth (is_no_items items) b']' w2)
          (then_write-Within cap (jw_put w b'[') (λ w1. write_items fpu libc opts items depth w1)
            (jw_put-Keeps b'[' cap w h) (write_items-Keeps items depth))
          (close_bracket-Keeps opts depth (is_no_items items) b']')
    write_value-Keeps (object pairs size idx is_sorted) depth = at_depth-Keeps depth _ λ cap w h.
        put_object-Within opts depth (members_of fpu libc opts pairs (depth + 1)) cap
          (order_for libc opts pairs w) (members_of-AllKeep pairs (depth + 1))
          (order_for-Within libc opts pairs cap w h)

    write_items-Keeps :
        (items : Items) (depth : ℕ) → Keeps (λ w. write_items fpu libc opts items depth w)
    write_items-Keeps no_items depth cap w h = h
    write_items-Keeps (item v items) depth cap w h =
        then_write-Within cap
          (write_value fpu libc opts v (depth + 1) (line_break opts (depth + 1) w))
          (λ w'. write_items fpu libc opts items depth (comma_if (not (is_no_items items)) w'))
          (write_value-Keeps v (depth + 1) cap (line_break opts (depth + 1) w)
            (line_break-Stays opts (depth + 1) cap w h))
          λ c w' h'.
            write_items-Keeps items depth c (comma_if (not (is_no_items items)) w')
              (comma_if-Stays (not (is_no_items items)) c w' h')

    members_of-AllKeep :
        (pairs : Pairs) (depth : ℕ) → AllKeep (members_of fpu libc opts pairs depth)
    members_of-AllKeep no_pairs depth = tt
    members_of-AllKeep (pair key v pairs) depth =
        (write_value-Keeps v depth, members_of-AllKeep pairs depth)
