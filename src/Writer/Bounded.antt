-- ===== src/Writer/Bounded.antt =====
-- What json_write leaves in the buffer.
use s_json.Base.{
  ℕ, ◌≤◌, ◌<◌, refl, subst, Bool, true, false, [], ◌∷◌, ◌++◌, Bytes, Option, none, some, ltb,
  if◌then◌else◌, if-cases, length, length-append, arith,
}
use s_json.Error.{json_ok}
use s_json.Arena.{JsonAllocator}
use s_json.Number.{Fpu}
use s_json.Value.{JsonValue}
use s_json.Writer.{Written, jw_put}
use s_json.Writer.Value.{JsonWriteOpts, write_value}
use s_json.Writer.Calls.{Output, opts_or_default, start_writer, put_trailing, terminate, json_write}
use s_json.Writer.Within.{Within, InBuffer, then_write-Within, jw_put-Keeps}
use s_json.Writer.WithinValue.{write_value-Keeps}

put_trailing-Within :
    (opts : JsonWriteOpts) (cap : ℕ) (r : Written)
    → Within cap r.0
    → Within cap (put_trailing opts r).0
unfolding put_trailing
put_trailing-Within opts cap r h =
    then_write-Within cap r (λ w. if opts.trailing_nl then jw_put w 10 else (w, json_ok)) h
      λ c w h'.
        if-cases (λ (x : Written). Within c x.0) opts.trailing_nl _ _ (λ _. jw_put-Keeps 10 c w h')
          (λ _. h')

InBuffer-length :
    (measuring : Bool) (buf : Bytes) (used cap : ℕ)
    → InBuffer measuring buf used cap
    → length buf ≤ cap
InBuffer-length true buf used cap h = rw h (omega arith)
InBuffer-length false buf used cap (size, inside) = omega arith

InBuffer-nul :
    (measuring : Bool) (buf : Bytes) (used cap : ℕ)
    → InBuffer measuring buf used cap
    → used < cap
    → length (buf ++ (0 ∷ [])) ≤ cap
InBuffer-nul true buf used cap h fits = rw h (omega arith)
InBuffer-nul false buf used cap (size, inside) fits = omega (arith, length-append buf (0 ∷ []))

terminate-length : (size : ℕ) (r : Written) → Within size r.0 → length (terminate r).text ≤ size
unfolding terminate
terminate-length size (w, json_ok) (cap, h) =
    if-cases (λ (out : Output). length out.text ≤ size) w.measure_only _ _
      (λ _. InBuffer-length w.measure_only w.buf w.used size h)
      λ _.
        if-cases (λ (out : Output). length out.text ≤ size) (ltb w.used w.cap) _ _
          (λ less. InBuffer-nul w.measure_only w.buf w.used size h (ground arith))
          (λ _. InBuffer-length w.measure_only w.buf w.used size h)
terminate-length size (w, _) (cap, h) = InBuffer-length w.measure_only w.buf w.used size h

start_writer-Within : (has_buf : Bool) (size : ℕ) → Within size (start_writer has_buf size)
start_writer-Within true size = (refl, (refl, omega arith))
start_writer-Within false size = (refl, refl)

started-length :
    (fpu : Fpu) (libc : JsonAllocator) (v : JsonValue) (has_buf : Bool) (size : ℕ)
    (opts : JsonWriteOpts)
    → length
        (terminate
          (put_trailing opts (write_value fpu libc opts v 0 (start_writer has_buf size)))).text
      ≤ size
started-length fpu libc v has_buf size opts = terminate-length size _ (
    put_trailing-Within opts size _ (
      write_value-Keeps fpu libc opts v 0 size (start_writer has_buf size)
        (start_writer-Within has_buf size)))

-- Whatever the value, the options, the outcome and the memory that the sort is given, json_write stores no
-- more bytes than the buffer has, the NUL included, and none where the buffer is NULL.
pub json_write-length :
    (fpu : Fpu) (libc : JsonAllocator) (v : Option JsonValue) (has_buf : Bool) (size : ℕ)
    (opts : Option JsonWriteOpts)
    → length (json_write fpu libc v has_buf size opts).text ≤ (if has_buf then size else 0)
unfolding json_write
json_write-length fpu libc none has_buf size opts = omega arith
json_write-length fpu libc (some v) true size opts =
    started-length fpu libc v true size (opts_or_default opts)
json_write-length fpu libc (some v) false size opts =
    if-cases (λ (out : Output). length out.text ≤ 0) (ltb 0 size) _ _ (λ _. omega arith)
      λ none_there.
        subst
          (λ (n : ℕ).
            length
              (terminate
                (put_trailing o (write_value fpu libc o v 0 (start_writer false size)))).text
            ≤ n)
          (ground arith) (started-length fpu libc v false size o)
  where
    o : JsonWriteOpts
    o = opts_or_default opts
