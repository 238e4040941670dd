-- ===== src/Writer/PutsValue.antt =====
-- json__write_value puts the text that Writer/Render describes.
use s_json.Base.{
  ℕ, ◌+◌, ◌≡◌, refl, sym, subst, Bool, true, false, not, [], ◌∷◌, ◌++◌, Bytes, leb, if◌then◌else◌,
  Option, none, some, codes,
}
use s_json.Error.{depth_exceeded, ok}
use s_json.Arena.{JsonAllocator}
use s_json.Number.{Fpu}
use s_json.Value.{
  JsonValue, null, boolean, integer, float, string, array, object, Items, no_items, item, Pairs,
  no_pairs, pair,
}
use s_json.Writer.{JsonWriter, Written, ◌then_write◌, jw_put, jw_puts, jw_int64, jw_double}
use s_json.Writer.Integer.{int_text, jw_int64-emitted}
use s_json.Writer.Value.{
  JsonWriteOpts, line_break, comma_if, put_key, is_more, put_members, order_for, close_bracket,
  put_object, put_string, is_no_items, at_depth, write_value, write_items, members_of,
}
use s_json.Writer.Render.{
  string_text, double_text, break_text, comma_text, colon_text, close_text, has_pairs, limited,
  render, render_items, render_pairs,
}
use s_json.Writer.Puts.{
  Puts, Leaves, Writes, Writes-bind, Puts-then, Leaves-then, Leaves-Puts, nothing-Puts, jw_put-Puts,
  jw_puts-Puts,
}
use s_json.Writer.PutsString.{
  put_string-Writes, put_name, put_name-Writes, put_key-Leaves, jw_double-Writes, line_break-Leaves,
  comma_if-Leaves, close_bracket-Puts,
}
use s_json.Parser.{max_depth}

limited-Writes :
    (depth : ℕ) (f : JsonWriter → Written) (text : Option Bytes)
    → Writes f text
    → Writes (λ w. at_depth depth w (f w)) (limited depth text)
limited-Writes depth f text h = go (leb max_depth depth)
  where
    go :
        (deep : Bool)
        → Writes (λ w. if deep then (w, depth_exceeded) else f w) (if deep then none else text)
    go true = tt
    go false = h

-- An entry, what stands before it, and the rest.
entry-Puts :
    (f : JsonWriter → JsonWriter) (g h : JsonWriter → Written) (more : Bool) (a b c : Bytes)
    → Leaves f a
    → Puts g b
    → Puts h c
    → Puts (λ w. g (f w) then_write λ w'. h (comma_if more w')) (a ++ (b ++ (comma_text more ++ c)))
entry-Puts f g h more a b c lead value rest =
    Leaves-Puts f (λ w. g w then_write λ w'. h (comma_if more w')) a (b ++ (comma_text more ++ c))
      lead
      (Puts-then g (λ w. h (comma_if more w)) b (comma_text more ++ c) value
        (Leaves-Puts (λ w. comma_if more w) h (comma_text more) c (comma_if-Leaves more) rest))

module _ (fpu : Fpu) (libc : JsonAllocator) (opts : JsonWriteOpts)
    (unsorted : opts.sort_keys ≡ false) where
  pub is_more-members_of :
      (pairs : Pairs) (depth : ℕ) → is_more (members_of fpu libc opts pairs depth) ≡ has_pairs pairs
  unfolding members_of
  is_more-members_of no_pairs depth = refl
  is_more-members_of (pair key v pairs) depth = refl

  pub order_for_unsorted :
      (pairs : Pairs) (w : JsonWriter) → order_for libc opts pairs w ≡ (ok none, w)
  unfolding order_for
  order_for_unsorted pairs w = rw unsorted refl

  mutual
    unfolding write_value render write_items render_items members_of render_pairs put_members
        put_object

    pub write_value-Writes :
        (v : JsonValue) (depth : ℕ)
        → Writes (λ w. write_value fpu libc opts v depth w) (render fpu opts v depth)
    write_value-Writes null depth =
        limited-Writes depth _ (some (codes "null")) (jw_puts-Puts (codes "null"))
    write_value-Writes (boolean b) depth =
        let text = if b then codes "true" else codes "false" in
        limited-Writes depth (λ w. jw_puts w text) (some text) (jw_puts-Puts text)
    write_value-Writes (integer i) depth =
        limited-Writes depth (λ w. jw_int64 w i) (some (int_text i))
          λ w room clean. jw_int64-emitted w i room
    write_value-Writes (float f) depth =
        limited-Writes depth (λ w. jw_double fpu w f) (double_text fpu f) (jw_double-Writes fpu f)
    write_value-Writes (string s) depth =
        limited-Writes depth (λ w. put_string opts s w) (string_text opts.ascii_only s.text)
          (put_string-Writes opts s)
    write_value-Writes (array items cap) depth = limited-Writes depth _ _ (
        Writes-bind _ (λ w. write_items fpu libc opts items depth w)
          (render_items fpu opts items depth) _ (write_items-Writes items depth)
          λ entries puts.
            Puts-then (λ w. jw_put w b'[' then_write λ w1. write_items fpu libc opts items depth w1)
              (λ w. close_bracket opts depth (is_no_items items) b']' w) (b'[' ∷ entries)
              (close_text opts depth (is_no_items items) b']')
              (Puts-then (λ w. jw_put w b'[') (λ w. write_items fpu libc opts items depth w)
                (b'[' ∷ []) entries (jw_put-Puts b'[') puts)
              (close_bracket-Puts opts depth (is_no_items items) b']'))
    write_value-Writes (object pairs cap idx is_sorted) depth = limited-Writes depth _ _ (
        Writes-bind _ (λ w. put_members opts depth (members_of fpu libc opts pairs (depth + 1)) w)
          (render_pairs fpu opts pairs depth) _ (members_of-Writes pairs depth)
          λ entries puts w room clean.
            rw (order_for_unsorted pairs w, is_more-members_of pairs (depth + 1))
              (Puts-then
                (λ w0. jw_put w0 b'{' then_write λ w1.
                  put_members opts depth (members_of fpu libc opts pairs (depth + 1)) w1)
                (λ w2. close_bracket opts depth (not (has_pairs pairs)) b'}' w2) (b'{' ∷ entries)
                (close_text opts depth (not (has_pairs pairs)) b'}')
                (Puts-then (λ w0. jw_put w0 b'{')
                  (λ w1. put_members opts depth (members_of fpu libc opts pairs (depth + 1)) w1)
                  (b'{' ∷ []) entries (jw_put-Puts b'{') puts)
                (close_bracket-Puts opts depth (not (has_pairs pairs)) b'}') w room clean))

    write_items-Writes :
        (items : Items) (depth : ℕ)
        → Writes (λ w. write_items fpu libc opts items depth w) (render_items fpu opts items depth)
    write_items-Writes no_items depth = nothing-Puts
    write_items-Writes (item v items) depth =
        Writes-bind _ (λ w. write_value fpu libc opts v (depth + 1) w)
          (render fpu opts v (depth + 1)) _ (write_value-Writes v (depth + 1))
          λ text value.
            Writes-bind _ (λ w. write_items fpu libc opts items depth w)
              (render_items fpu opts items depth) _ (write_items-Writes items depth)
              λ more rest.
                entry-Puts (λ w. line_break opts (depth + 1) w)
                  (λ w. write_value fpu libc opts v (depth + 1) w)
                  (λ w. write_items fpu libc opts items depth w) (not (is_no_items items))
                  (break_text opts (depth + 1)) text more (line_break-Leaves opts (depth + 1)) value
                  rest

    members_of-Writes :
        (pairs : Pairs) (depth : ℕ)
        → Writes
            (λ w. put_members opts depth (members_of fpu libc opts pairs (depth + 1)) w)
            (render_pairs fpu opts pairs depth)
    members_of-Writes no_pairs depth = nothing-Puts
    members_of-Writes (pair key v pairs) depth =
        let put_rest : JsonWriter → Written =
          λ w. put_members opts depth (members_of fpu libc opts pairs (depth + 1)) w in
        Writes-bind _ (λ w. put_name opts key w) (string_text opts.ascii_only key.text) _
          (put_name-Writes opts key)
          λ name named.
            Writes-bind _ (λ w. write_value fpu libc opts v (depth + 1) w)
              (render fpu opts v (depth + 1)) _ (write_value-Writes v (depth + 1))
              λ text value.
                Writes-bind _ put_rest (render_pairs fpu opts pairs depth) _
                  (members_of-Writes pairs depth)
                  λ more rest.
                    subst
                      (λ (flag : Bool).
                        Puts
                          (λ w.
                            write_value fpu libc opts v (depth + 1)
                              (put_key opts key (line_break opts (depth + 1) w))
                            then_write λ w'. put_rest (comma_if flag w'))
                          ((break_text opts (depth + 1) ++ (name ++ colon_text opts))
                            ++ (text ++ (comma_text (has_pairs pairs) ++ more))))
                      (sym (is_more-members_of pairs (depth + 1)))
                      (entry-Puts (λ w. put_key opts key (line_break opts (depth + 1) w))
                        (λ w. write_value fpu libc opts v (depth + 1) w) put_rest (has_pairs pairs)
                        (break_text opts (depth + 1) ++ (name ++ colon_text opts)) text more
                        (Leaves-then (λ w. line_break opts (depth + 1) w) (λ w. put_key opts key w)
                          (break_text opts (depth + 1)) (name ++ colon_text opts)
                          (line_break-Leaves opts (depth + 1)) (put_key-Leaves opts key name named))
                        value rest)
