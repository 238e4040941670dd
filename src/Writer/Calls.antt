-- ===== src/Writer/Calls.antt =====
-- json_write, json_measure and json_write_arena.
use s_json.Base.{
  ℕ, ◌+◌, Bool, true, false, not, ◌&&◌, [], ◌∷◌, ◌++◌, Option, none, some, Bytes, ltb, ◌==◌,
  if◌then◌else◌, size_max,
}
use s_json.Error.{JsonError, json_ok, null_param, oom, overflow, buffer_too_small, Result, ok, err}
use s_json.Arena.{JsonAllocator, Arena, Region, arena_alloc}
use s_json.Number.{Fpu}
use s_json.Value.{JsonValue}
use s_json.Writer.{JsonWriter, Written, ◌then_write◌, jw_put}
use s_json.Writer.Value.{JsonWriteOpts, write_value}

-- What a call of json_write leaves: its status, `*written` where it is stored, and the buffer, with its
-- NUL where that is stored.
pub record Output : Type 0 where
  pub status : JsonError
  pub written : Option ℕ
  pub text : Bytes

abbrev pub k_default_opts : JsonWriteOpts
k_default_opts = record {
  pretty = false;
  indent = 2;
  sort_keys = false;
  ascii_only = false;
  trailing_nl = false;
}

-- `opts` or the default where it is NULL.
abbrev pub opts_or_default : Option JsonWriteOpts → JsonWriteOpts
opts_or_default none = k_default_opts
opts_or_default (some opts) = opts

-- The writer that json_write starts with; `has_buf` is false where the buffer is NULL.
abbrev pub start_writer : Bool → ℕ → JsonWriter
start_writer has_buf buf_size = record {
  buf = [];
  cap = buf_size;
  used = 0;
  measure_only = not has_buf;
  err = json_ok;
  sort_arena = none;
}

-- The newline at the end.
unfoldable pub put_trailing : JsonWriteOpts → Written → Written
put_trailing opts written =
    written then_write λ w. if opts.trailing_nl then jw_put w 10 else (w, json_ok)

-- The NUL at the end, and the outputs.
unfoldable pub terminate : Written → Output
terminate (w, json_ok) =
    if w.measure_only
    then record { status = json_ok; written = some w.used; text = w.buf }
    else if ltb w.used w.cap
    then record { status = json_ok; written = some w.used; text = w.buf ++ (0 ∷ []) }
    else record { status = buffer_too_small; written = some w.used; text = w.buf }
terminate (w, e) = record { status = e; written = some w.used; text = w.buf }

abbrev refused : JsonError → Output
refused e = record { status = e; written = none; text = [] }

-- json_write
unfoldable pub json_write :
    Fpu → JsonAllocator → Option JsonValue → Bool → ℕ → Option JsonWriteOpts → Output
unfolding put_trailing terminate
json_write fpu libc none has_buf buf_size opts = refused null_param
json_write fpu libc (some v) has_buf buf_size opts =
    let o = opts_or_default opts in
    if not has_buf && ltb 0 buf_size
    then refused null_param
    else terminate (put_trailing o (write_value fpu libc o v 0 (start_writer has_buf buf_size)))

-- json_measure: the status and the size.
unfoldable pub json_measure :
    Fpu → JsonAllocator → Option JsonValue → Bool → Option JsonWriteOpts → Output
unfolding json_write
json_measure fpu libc none has_out opts = refused null_param
json_measure fpu libc (some v) has_out opts =
    if has_out then json_write fpu libc (some v) false 0 opts else refused null_param

unfoldable pub size_of : Option ℕ → ℕ
size_of none = 0
size_of (some n) = n

-- The handed of the second call, where the buffer was allocated.
unfoldable pub handed : Option Region → Output → Arena → Result (Bytes × ℕ) × Arena
unfolding size_of
handed none out a = (err oom, a)
handed (some _) out a = elim out.status [
  | json_ok ↦ (ok (out.text, size_of out.written), a)
  | e ↦ (err e, a)
]

-- json_write_arena from the measured size on: the text and its length, and the arena after.
unfoldable pub write_measured :
    Fpu
    → JsonAllocator
    → JsonValue
    → Arena
    → Option JsonWriteOpts
    → JsonError
    → ℕ
    → Result (Bytes × ℕ) × Arena
unfolding json_write handed
write_measured fpu libc v arena opts json_ok needed =
    let (region, a) = arena_alloc arena (needed + 1) in
    if needed == size_max
    then (err overflow, arena)
    else handed region (json_write fpu libc (some v) true (needed + 1) opts) a
write_measured fpu libc v arena opts e needed = (err e, arena)

-- json_write_arena
unfoldable pub json_write_arena :
    Fpu
    → JsonAllocator
    → Option JsonValue
    → Option Arena
    → Bool
    → Option JsonWriteOpts
    → Result (Bytes × ℕ) × Option Arena
unfolding write_measured json_measure size_of
json_write_arena fpu libc none arena has_out opts = (err null_param, arena)
json_write_arena fpu libc (some v) none has_out opts = (err null_param, none)
json_write_arena fpu libc (some v) (some arena) has_out opts =
    let measured = json_measure fpu libc (some v) true opts in
    let (result, a) =
      write_measured fpu libc v arena opts measured.status (size_of measured.written) in
    if has_out then (result, some a) else (err null_param, some arena)
