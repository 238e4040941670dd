-- ===== src/Writer/Refines.antt =====
-- The calls of Writer/Calls against the text that Writer/Render describes.
use s_json.Base.{
  ℕ, ◌+◌, ◌<◌, ◌≤◌, ◌≡◌, refl, ap, ◌∙◌, subst, Bool, true, false, [], ◌∷◌, ◌++◌, Bytes, ltb, ◌==◌,
  if◌then◌else◌, Option, none, some, length, size_max, arith,
}
use s_json.Error.{json_ok, oom, Result, ok, err}
use s_json.Arena.{JsonAllocator, Arena, Region, arena_alloc}
use s_json.Number.{Fpu}
use s_json.Value.{JsonValue}
use s_json.Writer.{JsonWriter, jw_put}
use s_json.Writer.Value.{JsonWriteOpts, write_value}
use s_json.Writer.Calls.{
  start_writer, put_trailing, terminate, json_write, json_measure, write_measured, json_write_arena,
  handed, size_of,
}
use s_json.Writer.Render.{render}
use s_json.Writer.Puts.{Puts, Writes, Puts-then, Puts-on, nothing-Puts, jw_put-Puts}
use s_json.Writer.PutsValue.{write_value-Writes}

-- The text with the newline that the options ask for.
abbrev pub document : JsonWriteOpts → Bytes → Bytes
document opts text = text ++ (if opts.trailing_nl then 10 ∷ [] else [])

-- The result where the buffer for the text is allocated, or is not.
abbrev pub handed_over : Option Region → Bytes → Result (Bytes × ℕ)
handed_over none bytes = err oom
handed_over (some _) bytes = ok (bytes ++ (0 ∷ []), length bytes)

handed_over_lem :
    (region : Option Region) (bytes : Bytes) (a : Arena)
    → handed region
        (record { status = json_ok; written = some (length bytes); text = bytes ++ (0 ∷ []) })
        a
      ≡ (handed_over region bytes, a)
unfolding handed size_of
handed_over_lem none bytes a = refl
handed_over_lem (some _) bytes a = refl

module _ (fpu : Fpu) (libc : JsonAllocator) (v : JsonValue) (opts : JsonWriteOpts) (text : Bytes)
    (unsorted : opts.sort_keys ≡ false) (described : render fpu opts v 0 ≡ some text) where
  document-Puts :
      Puts (λ w. put_trailing opts (write_value fpu libc opts v 0 w)) (document opts text)
  unfolding put_trailing
  document-Puts =
      Puts-then (λ w. write_value fpu libc opts v 0 w)
        (λ w. if opts.trailing_nl then jw_put w 10 else (w, json_ok)) text _
        (subst (λ r. Writes (λ w. write_value fpu libc opts v 0 w) r) described
          (write_value-Writes fpu libc opts unsorted v 0))
        (Puts-on opts.trailing_nl (λ w. jw_put w 10) (λ w. (w, json_ok)) (10 ∷ []) []
          (jw_put-Puts 10) nothing-Puts)

  -- The writer after the text, which it starts with nothing before.
  abbrev finished : Bool → ℕ → JsonWriter
  finished has_buf size = record (start_writer has_buf size) {
    buf = if has_buf then document opts text else [];
    used = length (document opts text);
  }

  writer_put :
      (size : ℕ)
      → length (document opts text) < size
      → size ≤ size_max
      → put_trailing opts (write_value fpu libc opts v 0 (start_writer true size))
        ≡ (finished true size, json_ok)
  writer_put size fits small =
      document-Puts (start_writer true size) (omega arith, λ m. omega arith) refl
      ∙ ap (λ (n : ℕ). (record (finished true size) { used = n }, json_ok)) (omega arith)

  measured_put :
      length (document opts text) < size_max
      → put_trailing opts (write_value fpu libc opts v 0 (start_writer false 0))
        ≡ (finished false 0, json_ok)
  measured_put small =
      document-Puts (start_writer false 0) (omega arith, λ m. ground arith) refl
      ∙ ap (λ (n : ℕ). (record (finished false 0) { used = n }, json_ok)) (omega arith)

  -- Where the keys are not to be sorted and a text is described for the value, json_write into a buffer
  -- with more room than the text and its newline take reports success, stores their length, and leaves
  -- exactly that text and a NUL in the buffer.
  pub json_write-render :
      (size : ℕ)
      → length (document opts text) < size
      → size ≤ size_max
      → json_write fpu libc (some v) true size (some opts) ≡ record {
        status = json_ok;
        written = some (length (document opts text));
        text = document opts text ++ (0 ∷ []);
      }
  unfolding json_write terminate
  json_write-render size fits small =
      let fit : ltb (length (document opts text)) size ≡ true = ground arith in
      rw (writer_put size fits small, fit) refl

  -- Where the keys are not to be sorted and a text is described for the value, json_measure reports
  -- success with the length of exactly that text and its newline, if a size_t can hold it.
  pub json_measure-render :
      length (document opts text) < size_max
      → json_measure fpu libc (some v) true (some opts)
        ≡ record { status = json_ok; written = some (length (document opts text)); text = [] }
  unfolding json_measure json_write terminate
  json_measure-render small = rw (measured_put small) refl

  -- Where the keys are not to be sorted and a text is described for the value, json_write_arena hands over
  -- exactly that text with its newline, a NUL and the length, in a buffer that the arena allocates; where
  -- the arena has none, it reports oom.
  pub json_write_arena-render :
      (arena : Arena)
      → length (document opts text) < size_max
      → json_write_arena fpu libc (some v) (some arena) true (some opts) ≡ (
          let (region, a) = arena_alloc arena (length (document opts text) + 1) in
          (handed_over region (document opts text), some a))
  unfolding json_write_arena write_measured terminate handed size_of
  json_write_arena-render arena small =
      let size = length (document opts text) in
      let bounded : (size == size_max) ≡ false = ground arith in
      let filled = json_write-render (size + 1) (omega arith) (omega arith) in
      let measured : terminate
            (put_trailing opts (write_value fpu libc opts v 0 (start_writer false 0)))
          ≡ record { status = json_ok; written = some size; text = [] } =
        ap terminate (measured_put small) in
      let (region, a) = arena_alloc arena (size + 1) in
      rw (measured, bounded, filled)
        (ap (λ (r : Result (Bytes × ℕ) × Arena). (r.0, some r.1))
          (handed_over_lem region (document opts text) a))
