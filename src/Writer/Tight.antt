-- ===== src/Writer/Tight.antt =====
-- Code that puts a text, into a buffer with room for it or without.
use s_json.Base.{
  ℕ, ◌+◌, ◌≤◌, ◌<◌, ◌≡◌, ◌≢◌, refl, ap, false, ◌++◌, Bytes, ltb, inl, inr, Bool-cases, length,
  length-append, size_max, arith,
}
use s_json.Error.{json_ok}
use s_json.Writer.{JsonWriter, Written, ◌then_write◌}
use s_json.Writer.Integer.{emitted, HasRoom}
use s_json.Writer.Puts.{Puts, Leaves, Puts-then, Leaves-then, Leaves-Puts}

-- A buffer that has room for one byte at least, and no error before.
abbrev pub Clean : ℕ → JsonWriter → Type 0
Clean cap w = (w.cap ≡ cap) × ((w.measure_only ≡ false) × ((w.err ≡ json_ok) × (w.used < cap)))

-- A full buffer, with the error kept.
abbrev pub Full : ℕ → JsonWriter → Type 0
Full cap w = (w.cap ≡ cap) × ((w.measure_only ≡ false) × ((w.err ≢ json_ok) × (cap ≤ w.used + 1)))

abbrev pub Stopped : ℕ → Written → Type 0
Stopped cap (w, e) = Full cap w × (e ≢ json_ok)

-- Without room for the text, the code stops with an error and a full buffer.
abbrev pub Stops : (JsonWriter → Written) → Bytes → Type 0
Stops f text =
    (cap : ℕ) (w : JsonWriter)
    → Clean cap w
    → cap ≤ w.used + length text
    → w.used + length text < size_max
    → Stopped cap (f w)

-- On a full buffer, it leaves a full buffer, and reports an error if there is anything to put.
abbrev pub Sticks : (JsonWriter → Written) → Bytes → Type 0
Sticks f text =
    (cap : ℕ) (w : JsonWriter)
    → Full cap w
    → Full cap (f w).0 × (1 ≤ length text → (f w).1 ≢ json_ok)

abbrev pub Tight : (JsonWriter → Written) → Bytes → Type 0
Tight f text = Puts f text × (Stops f text × Sticks f text)

-- The same for code whose status is not looked at.
abbrev pub TightLeaves : (JsonWriter → JsonWriter) → Bytes → Type 0
TightLeaves f text =
    Leaves f text
    × (((cap : ℕ) (w : JsonWriter)
          → Clean cap w
          → cap ≤ w.used + length text
          → w.used + length text < size_max
          → Full cap (f w))
        × ((cap : ℕ) (w : JsonWriter) → Full cap w → Full cap (f w)))

stop_then :
    (cap : ℕ) (r : Written) (g : JsonWriter → Written)
    → Stopped cap r
    → Stopped cap (r then_write g)
stop_then cap (w, json_ok) g (full, bad) = absurd (bad refl)
stop_then cap (w, _) g (full, bad) = (full, bad)

stick_then :
    (cap : ℕ) (r : Written) (g : JsonWriter → Written) (a b : Bytes)
    → Full cap r.0
    → (1 ≤ length a → r.1 ≢ json_ok)
    → Sticks g b
    → Full cap (r then_write g).0 × (1 ≤ length (a ++ b) → (r then_write g).1 ≢ json_ok)
stick_then cap (w, json_ok) g a b full bad h =
    let (full', bad') = h cap w full in
    let nothing : ¬ (1 ≤ length a) = λ some_bytes. bad some_bytes refl in
    (full', λ more. bad' (omega (arith, more, nothing, length-append a b)))
stick_then cap (w, _) g a b full bad h = (full, λ more e. cc)

emitted-Clean :
    (cap : ℕ) (w : JsonWriter) (a : Bytes)
    → Clean cap w
    → w.used + length a < cap
    → Clean cap (emitted w a)
emitted-Clean cap w a (size, (writes, (clean, inside))) fits = (size, (writes, (clean, fits)))

room_for :
    (cap : ℕ) (w : JsonWriter) (a : Bytes)
    → Clean cap w
    → w.used + length a < cap
    → w.used + length a < size_max
    → HasRoom w (length a)
room_for cap w a (size, rest) fits small = (small, λ _. omega (arith, size))

pub Stops-then :
    (f g : JsonWriter → Written) (a b : Bytes)
    → Puts f a
    → Stops f a
    → Stops g b
    → Stops (λ w. f w then_write g) (a ++ b)
Stops-then f g a b p stops stops' cap w clean over small =
    let size = length-append a b in
    elim (Bool-cases (ltb (w.used + length a) cap)) [
      | inl fits ↦
          let space : w.used + length a < cap = ground arith in
          rw (p w (room_for cap w a clean space (omega arith)) clean.1.1.0) (
            stops' cap (emitted w a) (emitted-Clean cap w a clean space) (omega arith)
              (omega arith))
      | inr tight ↦ stop_then cap (f w) g (stops cap w clean (ground arith) (omega arith))
    ]

pub Tight-then :
    (f g : JsonWriter → Written) (a b : Bytes)
    → Tight f a
    → Tight g b
    → Tight (λ w. f w then_write g) (a ++ b)
Tight-then f g a b (p, (stops, sticks)) (q, (stops', sticks')) = (
  Puts-then f g a b p q,
  (
    Stops-then f g a b p stops stops',
    λ cap w full. stick_then cap (f w) g a b (sticks cap w full).0 (sticks cap w full).1 sticks',
  ),
)

pub TightLeaves-then :
    (f g : JsonWriter → JsonWriter) (a b : Bytes)
    → TightLeaves f a
    → TightLeaves g b
    → TightLeaves (λ w. g (f w)) (a ++ b)
TightLeaves-then f g a b (p, (fills, sticks)) (q, (fills', sticks')) =
    (Leaves-then f g a b p q, (go, λ cap w full. sticks' cap (f w) (sticks cap w full)))
  where
    go :
        (cap : ℕ) (w : JsonWriter)
        → Clean cap w
        → cap ≤ w.used + length (a ++ b)
        → w.used + length (a ++ b) < size_max
        → Full cap (g (f w))
    go cap w clean over small =
        let size = length-append a b in
        elim (Bool-cases (ltb (w.used + length a) cap)) [
          | inl fits ↦
              let space : w.used + length a < cap = ground arith in
              rw (p w (room_for cap w a clean space (omega arith)) clean.1.1.0) (
                fills' cap (emitted w a) (emitted-Clean cap w a clean space) (omega arith)
                  (omega arith))
          | inr tight ↦ sticks' cap (f w) (fills cap w clean (ground arith) (omega arith))
        ]

-- Code that reports an error on any full buffer.
abbrev pub Refuses : (JsonWriter → Written) → Type 0
Refuses f = (cap : ℕ) (w : JsonWriter) → Full cap w → Stopped cap (f w)

abbrev pub Sure : (JsonWriter → Written) → Bytes → Type 0
Sure f text = Puts f text × (Stops f text × Refuses f)

pub Sure-Tight : (f : JsonWriter → Written) (a : Bytes) → Sure f a → Tight f a
Sure-Tight f a (p, (stops, refuses)) =
    (p, (stops, λ cap w full. let (after, bad) = refuses cap w full in (after, λ _. bad)))

pub Tight-Sure : (f : JsonWriter → Written) (a : Bytes) → 1 ≤ length a → Tight f a → Sure f a
Tight-Sure f a some_bytes (p, (stops, sticks)) =
    (p, (stops, λ cap w full. let (after, bad) = sticks cap w full in (after, bad some_bytes)))

pub TightLeaves-Sure :
    (f : JsonWriter → JsonWriter) (g : JsonWriter → Written) (a b : Bytes)
    → TightLeaves f a
    → Sure g b
    → Sure (λ w. g (f w)) (a ++ b)
TightLeaves-Sure f g a b (p, (fills, sticks)) (q, (stops', refuses)) =
    (Leaves-Puts f g a b p q, (go, λ cap w full. refuses cap (f w) (sticks cap w full)))
  where
    go : Stops (λ w. g (f w)) (a ++ b)
    go cap w clean over small =
        let size = length-append a b in
        elim (Bool-cases (ltb (w.used + length a) cap)) [
          | inl fits ↦
              let space : w.used + length a < cap = ground arith in
              rw (p w (room_for cap w a clean space (omega arith)) clean.1.1.0) (
                stops' cap (emitted w a) (emitted-Clean cap w a clean space) (omega arith)
                  (omega arith))
          | inr tight ↦ refuses cap (f w) (fills cap w clean (ground arith) (omega arith))
        ]

pub TightLeaves-Tight :
    (f : JsonWriter → JsonWriter) (g : JsonWriter → Written) (a b : Bytes)
    → TightLeaves f a
    → Tight g b
    → 1 ≤ length b
    → Tight (λ w. g (f w)) (a ++ b)
TightLeaves-Tight f g a b lead tight some_bytes =
    Sure-Tight (λ w. g (f w)) (a ++ b)
      (TightLeaves-Sure f g a b lead (Tight-Sure g b some_bytes tight))

refuse_then :
    (cap : ℕ) (r : Written) (g : JsonWriter → Written)
    → Full cap r.0
    → Refuses g
    → Stopped cap (r then_write g)
refuse_then cap (w, json_ok) g full h = h cap w full
refuse_then cap (w, _) g full h = (full, λ e. cc)

pub then-Sure :
    (f g : JsonWriter → Written) (a b : Bytes)
    → Tight f a
    → Sure g b
    → Sure (λ w. f w then_write g) (a ++ b)
then-Sure f g a b (p, (stops, sticks)) (q, (stops', refuses)) = (
  Puts-then f g a b p q,
  (
    Stops-then f g a b p stops stops',
    λ cap w full. refuse_then cap (f w) g (sticks cap w full).0 refuses,
  ),
)

pub Tight-TightLeaves :
    (f : JsonWriter → Written) (a : Bytes) → Tight f a → TightLeaves (λ w. (f w).0) a
Tight-TightLeaves f a (p, (stops, sticks)) = (
  λ w room clean. ap (λ (r : Written). r.0) (p w room clean),
  (
    (λ cap w clean over small. (stops cap w clean over small).0),
    λ cap w full. (sticks cap w full).0,
  ),
)
