-- ===== src/Writer/Refuses.antt =====
-- json_write on one line into a buffer that is too small.
use s_json.Base.{
  ℕ, ◌≤◌, ◌<◌, ◌≡◌, ◌≢◌, refl, subst, true, false, [], ◌∷◌, Bytes, if◌then◌else◌, Option, some,
  length, size_max, arith,
}
use s_json.Error.{json_ok}
use s_json.Arena.{JsonAllocator}
use s_json.Number.{Fpu}
use s_json.Value.{JsonValue}
use s_json.Writer.{Written, jw_put}
use s_json.Writer.Value.{JsonWriteOpts, write_value}
use s_json.Writer.Calls.{start_writer, put_trailing, terminate, json_write}
use s_json.Writer.Render.{render}
use s_json.Writer.Refines.{document}
use s_json.Writer.Tight.{Tight, Tight-then}
use s_json.Writer.TightPuts.{TightWrites, jw_put-Tight}
use s_json.Writer.TightString.{Tight-on}
use s_json.Writer.TightEntries.{nothing-Tight}
use s_json.Writer.TightValue.{write_value-TightWrites}

terminate-status : (r : Written) → r.1 ≢ json_ok → (terminate r).status ≢ json_ok
unfolding terminate
terminate-status (w, json_ok) bad = absurd (bad refl)
terminate-status (w, _) bad = bad

-- Where the layout has no line breaks, the keys are not to be sorted and a text is described for the value,
-- json_write into a buffer that holds a byte at least, but not the text with its newline and a NUL, reports
-- an error: a text that is cut is never taken for a whole one.
pub json_write-Refuses :
    (fpu : Fpu) (libc : JsonAllocator) (v : JsonValue) (opts : JsonWriteOpts) (text : Bytes)
    (size : ℕ)
    → opts.sort_keys ≡ false
    → opts.pretty ≡ false
    → render fpu opts v 0 ≡ some text
    → 0 < size
    → size ≤ length (document opts text)
    → length (document opts text) < size_max
    → (json_write fpu libc (some v) true size (some opts)).status ≢ json_ok
unfolding json_write put_trailing
json_write-Refuses fpu libc v opts text size unsorted compact described holds short small =
    let value : TightWrites (λ w. write_value fpu libc opts v 0 w) (some text) =
      subst (λ (r : Option Bytes). TightWrites (λ w. write_value fpu libc opts v 0 w) r) described
        (write_value-TightWrites fpu libc opts unsorted compact v 0) in
    let whole : Tight (λ w. put_trailing opts (write_value fpu libc opts v 0 w))
        (document opts text) =
      Tight-then (λ w. write_value fpu libc opts v 0 w)
        (λ w. if opts.trailing_nl then jw_put w 10 else (w, json_ok)) text _ value.0
        (Tight-on opts.trailing_nl (λ w. jw_put w 10) (λ w. (w, json_ok)) (10 ∷ []) []
          (jw_put-Tight 10) nothing-Tight) in
    let stopped =
      whole.1.0 size (start_writer true size) (refl, (refl, (refl, holds))) (omega arith)
        (omega arith) in
    terminate-status (put_trailing opts (write_value fpu libc opts v 0 (start_writer true size)))
      stopped.1
