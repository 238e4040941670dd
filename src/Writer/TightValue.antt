-- ===== src/Writer/TightValue.antt =====
-- What json__write_value does where there is no room, on one line.
use s_json.Base.{
  ℕ, ◌+◌, ◌≡◌, refl, sym, subst, Bool, true, false, not, [], ◌∷◌, ◌++◌, Bytes, some, codes, arith,
}
use s_json.Arena.{JsonAllocator}
use s_json.Number.{Fpu}
use s_json.Value.{
  JsonValue, null, boolean, integer, float, string, array, object, Items, no_items, item, Pairs,
  no_pairs, pair,
}
use s_json.Writer.{JsonWriter, Written, ◌then_write◌, jw_put, jw_int64, jw_double}
use s_json.Writer.Integer.{int_text}
use s_json.Writer.Value.{
  JsonWriteOpts, line_break, comma_if, put_key, put_members, close_bracket, put_object, put_string,
  is_no_items, write_value, write_items, members_of,
}
use s_json.Writer.Render.{
  string_text, double_text, break_text, comma_text, colon_text, close_text, has_pairs, render,
  render_items, render_pairs,
}
use s_json.Writer.PutsString.{put_name}
use s_json.Writer.PutsValue.{is_more-members_of, order_for_unsorted}
use s_json.Writer.Tight.{Tight, TightLeaves, Tight-then, TightLeaves-then, TightLeaves-Tight}
use s_json.Writer.TightPuts.{
  TightWrites, jw_put-Tight, jw_puts-Tight, jw_int64-Tight, jw_double-TightWrites,
}
use s_json.Writer.TightString.{put_string-TightWrites, put_name-SureWrites, put_key-TightLeaves}
use s_json.Writer.TightEntries.{
  EntriesTight, EntriesTight-bind, EntriesTight-name, EntriesTight-value, Tight-same,
  TightWrites-entries, entry-Tight, int_text_some, limited-TightWrites, nothing-Tight,
  nothing-TightLeaves,
}

module _ (fpu : Fpu) (libc : JsonAllocator) (opts : JsonWriteOpts)
    (unsorted : opts.sort_keys ≡ false) (compact : opts.pretty ≡ false) where
  line_break-TightLeaves :
      (depth : ℕ) → TightLeaves (λ w. line_break opts depth w) (break_text opts depth)
  unfolding line_break
  line_break-TightLeaves depth = rw compact nothing-TightLeaves

  close_bracket-Tight :
      (depth : ℕ) (is_empty : Bool) (bracket : ℕ)
      → Tight
          (λ w. close_bracket opts depth is_empty bracket w)
          (close_text opts depth is_empty bracket)
  unfolding close_bracket
  close_bracket-Tight depth true bracket = jw_put-Tight bracket
  close_bracket-Tight depth false bracket =
      TightLeaves-Tight (λ w. line_break opts depth w) (λ w. jw_put w bracket)
        (break_text opts depth) (bracket ∷ []) (line_break-TightLeaves depth) (jw_put-Tight bracket)
        (omega arith)

  mutual
    unfolding write_value render write_items render_items members_of render_pairs put_members
        put_object

    pub write_value-TightWrites :
        (v : JsonValue) (depth : ℕ)
        → TightWrites (λ w. write_value fpu libc opts v depth w) (render fpu opts v depth)
    write_value-TightWrites null depth =
        limited-TightWrites depth _ (some (codes "null"))
          (jw_puts-Tight (codes "null"), omega arith)
    write_value-TightWrites (boolean true) depth =
        limited-TightWrites depth _ (some (codes "true"))
          (jw_puts-Tight (codes "true"), omega arith)
    write_value-TightWrites (boolean false) depth =
        limited-TightWrites depth _ (some (codes "false"))
          (jw_puts-Tight (codes "false"), omega arith)
    write_value-TightWrites (integer i) depth =
        limited-TightWrites depth (λ w. jw_int64 w i) (some (int_text i))
          (jw_int64-Tight i, int_text_some i)
    write_value-TightWrites (float f) depth =
        limited-TightWrites depth (λ w. jw_double fpu w f) (double_text fpu f)
          (jw_double-TightWrites fpu f)
    write_value-TightWrites (string s) depth =
        limited-TightWrites depth (λ w. put_string opts s w) (string_text opts.ascii_only s.text)
          (put_string-TightWrites opts s)
    write_value-TightWrites (array items cap) depth = limited-TightWrites depth _ _ (
        TightWrites-entries _ (λ w. write_items fpu libc opts items depth w)
          (not (is_no_items items)) (render_items fpu opts items depth) _
          (write_items-EntriesTight items depth)
          λ entries puts. (
            Tight-then
                (λ w. jw_put w b'[' then_write λ w1. write_items fpu libc opts items depth w1)
                (λ w. close_bracket opts depth (is_no_items items) b']' w) (b'[' ∷ entries)
                (close_text opts depth (is_no_items items) b']')
                (Tight-then (λ w. jw_put w b'[') (λ w. write_items fpu libc opts items depth w)
                  (b'[' ∷ []) entries (jw_put-Tight b'[') puts)
                (close_bracket-Tight depth (is_no_items items) b']'),
            omega arith,
          ))
    write_value-TightWrites (object pairs cap idx is_sorted) depth = limited-TightWrites depth _ _ (
        TightWrites-entries _
          (λ w. put_members opts depth (members_of fpu libc opts pairs (depth + 1)) w)
          (has_pairs pairs) (render_pairs fpu opts pairs depth) _
          (members_of-EntriesTight pairs depth)
          λ entries puts. (
            Tight-same _
                (λ w.
                  jw_put w b'{'
                  then_write (λ w1.
                      put_members opts depth (members_of fpu libc opts pairs (depth + 1)) w1)
                  then_write λ w2. close_bracket opts depth (not (has_pairs pairs)) b'}' w2)
                _
                (λ w.
                  rw
                    (
                      order_for_unsorted fpu libc opts unsorted pairs w,
                      is_more-members_of fpu libc opts unsorted pairs (depth + 1),
                    )
                    refl)
                (Tight-then
                  (λ w0. jw_put w0 b'{' then_write λ w1.
                    put_members opts depth (members_of fpu libc opts pairs (depth + 1)) w1)
                  (λ w2. close_bracket opts depth (not (has_pairs pairs)) b'}' w2) (b'{' ∷ entries)
                  (close_text opts depth (not (has_pairs pairs)) b'}')
                  (Tight-then (λ w0. jw_put w0 b'{')
                    (λ w1. put_members opts depth (members_of fpu libc opts pairs (depth + 1)) w1)
                    (b'{' ∷ []) entries (jw_put-Tight b'{') puts)
                  (close_bracket-Tight depth (not (has_pairs pairs)) b'}')),
            omega arith,
          ))

    write_items-EntriesTight :
        (items : Items) (depth : ℕ)
        → EntriesTight
            (λ w. write_items fpu libc opts items depth w)
            (not (is_no_items items))
            (render_items fpu opts items depth)
    write_items-EntriesTight no_items depth = (nothing-Tight, λ h. cc)
    write_items-EntriesTight (item v items) depth =
        EntriesTight-value _ (λ w. write_value fpu libc opts v (depth + 1) w) true
          (render fpu opts v (depth + 1)) _ (write_value-TightWrites v (depth + 1))
          λ text value some_text.
            EntriesTight-bind _ (λ w. write_items fpu libc opts items depth w) true
              (not (is_no_items items)) (render_items fpu opts items depth) _
              (write_items-EntriesTight items depth)
              λ more rest some_more.
                let (tight, some_all) =
                  entry-Tight (λ w. line_break opts (depth + 1) w)
                    (λ w. write_value fpu libc opts v (depth + 1) w)
                    (λ w. write_items fpu libc opts items depth w) (not (is_no_items items))
                    (break_text opts (depth + 1)) text more (line_break-TightLeaves (depth + 1))
                    value some_text rest some_more in
                (tight, λ _. some_all)

    members_of-EntriesTight :
        (pairs : Pairs) (depth : ℕ)
        → EntriesTight
            (λ w. put_members opts depth (members_of fpu libc opts pairs (depth + 1)) w)
            (has_pairs pairs)
            (render_pairs fpu opts pairs depth)
    members_of-EntriesTight no_pairs depth = (nothing-Tight, λ h. cc)
    members_of-EntriesTight (pair key v pairs) depth =
        let put_rest : JsonWriter → Written =
          λ w. put_members opts depth (members_of fpu libc opts pairs (depth + 1)) w in
        let label : Bytes → Bytes =
          λ name. break_text opts (depth + 1) ++ (name ++ colon_text opts) in
        EntriesTight-name _ (λ w. put_name opts key w) true (string_text opts.ascii_only key.text) _
          (put_name-SureWrites opts key)
          λ name named.
            EntriesTight-value _ (λ w. write_value fpu libc opts v (depth + 1) w) true
              (render fpu opts v (depth + 1)) _ (write_value-TightWrites v (depth + 1))
              λ text value some_text.
                EntriesTight-bind _ put_rest true (has_pairs pairs)
                  (render_pairs fpu opts pairs depth) _ (members_of-EntriesTight pairs depth)
                  λ more rest some_more.
                    let (tight, some_all) =
                      entry-Tight (λ w. put_key opts key (line_break opts (depth + 1) w))
                        (λ w. write_value fpu libc opts v (depth + 1) w) put_rest (has_pairs pairs)
                        (label name) text more
                        (TightLeaves-then (λ w. line_break opts (depth + 1) w)
                          (λ w. put_key opts key w) (break_text opts (depth + 1))
                          (name ++ colon_text opts) (line_break-TightLeaves (depth + 1))
                          (put_key-TightLeaves opts key name compact named))
                        value some_text rest some_more in
                    (
                      subst
                          (λ (flag : Bool).
                            Tight
                              (λ w.
                                write_value fpu libc opts v (depth + 1)
                                  (put_key opts key (line_break opts (depth + 1) w))
                                then_write λ w'. put_rest (comma_if flag w'))
                              (label name ++ (text ++ (comma_text (has_pairs pairs) ++ more))))
                          (sym (is_more-members_of fpu libc opts unsorted pairs (depth + 1))) tight,
                      λ _. some_all,
                    )
