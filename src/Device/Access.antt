-- ===== src/Device/Access.antt =====
-- go/src/device_manager/access_control.go. A float32 is its 32 bits (IEEE 754), so that the one
-- comparison that the code makes is a comparison of bits.
pub mod Laws
use goster_io_t.Common.{
  ℕ, Bool, true, false, ◌&&◌, ◌||◌, ◌==◌, leb, Option, none, some, List, [], ◌∷◌, if◌then◌else◌,
  not,
}
use goster_io_t.Common.Int.{ℤ, pos, int_leb}
use goster_io_t.Common.Text.{Text, text}

-- inter.MetricPoint: the timestamp in milliseconds, the bits of the value, the type.
pub record MetricPoint : Type 0 where
  pub timestamp : ℤ
  pub value : ℕ
  pub metric_type : ℕ

abbrev pub metric_type_access_signal_a : ℕ
metric_type_access_signal_a = 8

abbrev pub metric_type_access_signal_b : ℕ
metric_type_access_signal_b = 16

pub record AccessControlState : Type 0 where
  pub signal_a : Option ℕ
  pub signal_b : Option ℕ
  pub is_open : Option Bool
  pub evaluated_at_ms : Option ℤ
  pub status_text : Text

-- `value >= 1` on the bits of a float32: from the bits of 1.0 to those of +Inf, past which the
-- positive patterns are NaN and then the negative numbers.
unfoldable pub at_least_one : ℕ → Bool
at_least_one value = leb 0x3F800000 value && leb value 0x7F800000

unfoldable pub normalize_access_signal : ℕ → ℕ
normalize_access_signal value = if at_least_one value then 1 else 0

-- signalA and tsA, or signalB and tsB
pub record Reading : Type 0 where
  pub signal : Option ℕ
  pub ts : ℤ

-- `signalA == nil || point.Timestamp >= tsA`
abbrev pub replaces : Option ℕ → ℤ → MetricPoint → Bool
replaces none ts point = true
replaces (some v) ts point = int_leb ts point.timestamp

unfoldable pub note : Reading → MetricPoint → Reading
note reading point =
    if replaces reading.signal reading.ts point
    then record { signal = some (normalize_access_signal point.value); ts = point.timestamp }
    else reading

-- The loop over the points.
unfoldable pub scan : List MetricPoint → Reading → Reading → Reading × Reading
scan [] a b = (a, b)
scan (point ∷ points) a b =
    if point.metric_type == metric_type_access_signal_a
    then scan points (note a point) b
    else if point.metric_type == metric_type_access_signal_b
    then scan points a (note b point)
    else scan points a b

-- The larger of the two, and of 0 from which the search starts; none where that is 0.
unfoldable pub latest_access_signal_timestamp : ℤ → ℤ → Option ℤ
latest_access_signal_timestamp x y =
    let first = if int_leb x (pos 0) then pos 0 else x in
    let latest = if int_leb y first then first else y in
    if int_leb latest (pos 0) then none else some latest

-- The door is open where both signals are there and 1.
unfoldable pub door : Option ℕ → Option ℕ → Option Bool
door (some x) (some y) = some (x == 1 && y == 1)
door (some x) none = none
door none b = none

unfoldable pub status_text_of : Option Bool → Text
status_text_of none = text "unknown"
status_text_of (some true) = text "open"
status_text_of (some false) = text "closed"

unfoldable pub evaluate_access_control : List MetricPoint → AccessControlState
evaluate_access_control points =
    let start : Reading = record { signal = none; ts = pos 0 } in
    let (a, b) = scan points start start in
    let is_open = door a.signal b.signal in
    record {
      signal_a = a.signal;
      signal_b = b.signal;
      is_open = is_open;
      evaluated_at_ms = latest_access_signal_timestamp a.ts b.ts;
      status_text = status_text_of is_open;
    }
