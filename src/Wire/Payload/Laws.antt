-- ===== src/Wire/Payload/Laws.antt =====
-- What the payload parsers make of a payload that a device writes, and what they accept.
use goster_io_t.Common.{
  ℕ, zero, suc, ◌+◌, ◌*◌, ◌%◌, ◌^◌, some, ◌<◌, ◌≡◌, refl, sym, ap, ◌∙◌, arith, List, [], ◌∷◌, ◌++◌,
}
use goster_io_t.Common.{
  le→leb, ==_iff, eq→==, neq→==, leb, ◌==◌, Bool-cases, inl, inr, if-true, if-false,
}
use goster_io_t.Common.{
  length, drop, length-append, take-append_len, drop-append_len, append_assoc, length-drop, get_or,
}
use goster_io_t.Common.Result.{ok, >>=-succeeds, ok-injective}
use goster_io_t.Common.Word.{Bytes, put_le, get_le, get_le-put_le, length-put_le, slice}
use goster_io_t.Common.Text.{Text, text}
use goster_io_t.Adapter.Types.{MetricPoint, no_value}
use goster_io_t.Wire.Payload.{
  Series, legacy_metric_name, log_level, metric_point, metric_points, parse_points,
  parse_metrics_payload, parse_log_payload,
}

-- The samples as a device writes them, four bytes each.
abbrev pub sample_bytes : List ℕ → Bytes
sample_bytes [] = []
sample_bytes (bits ∷ samples) = put_le 4 bits ++ sample_bytes samples

abbrev pub metrics_payload : ℕ → ℕ → ℕ → List ℕ → Bytes
metrics_payload start interval data_type samples =
    put_le 8 start
    ++ (put_le 4 interval ++ (data_type ∷ (put_le 4 (length samples) ++ sample_bytes samples)))

-- The points that a report stands for, from index `i` on.
abbrev pub points_from : (ℕ → ℕ) → Series → ℕ → List ℕ → List MetricPoint
points_from widen series i [] = []
points_from widen series i (bits ∷ samples) =
    record {
      name = series.name;
      value = record no_value { number = some (widen bits) };
      unit = series.unit;
      observed_at = (series.start + i * series.interval) % 2 ^ 64;
      legacy_metric_type = series.data_type;
      tags = [];
    }
    ∷ points_from widen series (i + 1) samples

-- The types of samples, with the names and the units that go with them.
pub data KnownMetric : ℕ → Text → Text → Type 0 where
  temperature_type : KnownMetric 1 (text "temperature") (0xc2 ∷ 0xb0 ∷ 0x43 ∷ [])
  humidity_type : KnownMetric 2 (text "humidity") (text "%")
  illuminance_type : KnownMetric 4 (text "illuminance") (text "lx")
  signal_a_type : KnownMetric 8 (text "access_signal_a") (text "")
  signal_b_type : KnownMetric 16 (text "access_signal_b") (text "")

legacy_metric_name-KnownMetric :
    {data_type : ℕ} {name unit : Text}
    → KnownMetric data_type name unit
    → legacy_metric_name data_type ≡ ok (name, unit)
unfolding legacy_metric_name
legacy_metric_name-KnownMetric temperature_type = refl
legacy_metric_name-KnownMetric humidity_type = refl
legacy_metric_name-KnownMetric illuminance_type = refl
legacy_metric_name-KnownMetric signal_a_type = refl
legacy_metric_name-KnownMetric signal_b_type = refl

abbrev pub AllBelow : ℕ → List ℕ → Type 0
AllBelow bound [] = Unit {0}
AllBelow bound (x ∷ xs) = (x < bound) × AllBelow bound xs

length-sample_bytes : (samples : List ℕ) → length (sample_bytes samples) ≡ length samples * 4
length-sample_bytes [] = refl
length-sample_bytes (bits ∷ samples) = omega (
  arith,
  length-append (put_le 4 bits) (sample_bytes samples),
  length-put_le 4 bits,
  length-sample_bytes samples,
)

slice_behind :
    (n k : ℕ) (before xs after : Bytes)
    → length before ≡ n
    → length xs ≡ k
    → slice n k (before ++ (xs ++ after)) ≡ xs
slice_behind n k before xs after hn hk =
    rw (drop-append_len n before (xs ++ after) hn) (take-append_len k xs after hk)

points-samples :
    (widen : ℕ → ℕ) (series : Series) (i : ℕ) (before : Bytes) (samples : List ℕ)
    → length before ≡ i * 4
    → AllBelow (2 ^ 32) samples
    → metric_points widen series (before ++ sample_bytes samples) i (length samples)
      ≡ points_from widen series i samples
unfolding metric_points metric_point
points-samples widen series i before [] h small = refl
points-samples widen series i before (bits ∷ samples) h (small, others) =
    let here =
      slice_behind (i * 4) 4 before (put_le 4 bits) (sample_bytes samples) h
        (length-put_le 4 bits) in
    let read = ap get_le here ∙ get_le-put_le 4 bits small in
    let grown : length (before ++ put_le 4 bits) ≡ (i + 1) * 4 =
      omega (arith, length-append before (put_le 4 bits), length-put_le 4 bits) in
    let later =
      points-samples widen series (i + 1) (before ++ put_le 4 bits) samples grown others in
    let later' =
      ap (λ blob. metric_points widen series blob (i + 1) (length samples))
        (sym (append_assoc before (put_le 4 bits) (sample_bytes samples)))
      ∙ later in
    rw read (ap (λ l. metric_point widen series i bits ∷ l) later')

-- A metrics report that a device writes is read back: the points have the samples' values, the
-- type's name and unit, and the times start + i * interval cut to 64 bits. The start fits 64 bits,
-- the interval, the number of samples and the samples fit 32, and the type is one of the five known
-- ones.
pub parse_metrics_payload-metrics_payload :
    (widen : ℕ → ℕ) (start interval data_type : ℕ) (samples : List ℕ) (name unit : Text)
    → start < 2 ^ 64
    → interval < 2 ^ 32
    → length samples < 2 ^ 32
    → AllBelow (2 ^ 32) samples
    → KnownMetric data_type name unit
    → parse_metrics_payload widen (metrics_payload start interval data_type samples)
      ≡ ok (
          points_from widen
            (record {
              start = start;
              interval = interval;
              data_type = data_type;
              name = name;
              unit = unit;
            })
            0
            samples)
unfolding parse_metrics_payload parse_points put_le
parse_metrics_payload-metrics_payload widen start interval type_ samples name unit hs hi hn small
      known =
    let named = legacy_metric_name-KnownMetric known in
    let count = get_le-put_le 4 (length samples) hn in
    let first = get_le-put_le 8 start hs in
    let every = get_le-put_le 4 interval hi in
    let blob = length-sample_bytes samples in
    let long = le→leb 17 (length (metrics_payload start interval type_ samples)) (omega arith) in
    let sized = eq→== (length (sample_bytes samples)) (length samples * 4) blob in
    rw (long, named, count, first, every, sized)
      (ap ok (points-samples widen _ 0 [] samples refl small))

length-metric_points :
    (widen : ℕ → ℕ) (series : Series) (blob : Bytes) (i n : ℕ)
    → length (metric_points widen series blob i n) ≡ n
unfolding metric_points
length-metric_points widen series blob i zero = refl
length-metric_points widen series blob i (suc n) =
    ap suc (length-metric_points widen series blob (i + 1) n)

parse_points-exact :
    (widen : ℕ → ℕ) (payload : Bytes) (names : Text × Text) (points : List MetricPoint)
    → parse_points widen payload names ≡ ok points
    → (length (drop 17 payload) ≡ get_le (slice 13 4 payload) * 4)
      × (length points ≡ get_le (slice 13 4 payload))
unfolding parse_points
parse_points-exact widen payload (name, unit) points h =
    elim (Bool-cases (length (drop 17 payload) == get_le (slice 13 4 payload) * 4)) [
      | inr other ↦ absurd (cc (if-false _ _ other))
      | inl same ↦
          let made = sym (ok-injective (sym (if-true _ _ same) ∙ h)) in
          ((==_iff _ _).0 same, ap length made ∙ length-metric_points widen _ _ 0 _)
    ]

-- What an accepted metrics report fixes about its payload.
pub record Measured (payload : Bytes) (points : List MetricPoint) : Type 0 where
  pub known : (names : Text × Text) × (legacy_metric_name (get_or payload 12 0) ≡ ok names)
  pub counted : length points ≡ get_le (slice 13 4 payload)
  pub exact : length payload ≡ 17 + length points * 4

-- A metrics payload that is accepted has a known type and exactly the samples that its count
-- announces, four bytes each behind the 17 bytes in front: none is missing and none is left over.
pub parse_metrics_payload-Measured :
    (widen : ℕ → ℕ) (payload : Bytes) (points : List MetricPoint)
    → parse_metrics_payload widen payload ≡ ok points
    → Measured payload points
unfolding parse_metrics_payload
parse_metrics_payload-Measured widen payload points h =
    elim (Bool-cases (leb 17 (length payload))) [
      | inr short ↦ absurd (cc (if-false _ _ short))
      | inl long ↦
          let (names, known, h1) =
            >>=-succeeds (legacy_metric_name (get_or payload 12 0)) (parse_points widen payload)
              (sym (if-true _ _ long) ∙ h) in
          let (fits, made) = parse_points-exact widen payload names points h1 in
          record {
            known = (names, known);
            counted = made;
            exact = ground (arith, made, fits, long, length-drop 17 payload);
          }
    ]

-- The levels in the order of their numbers; any other number is that of an "info".
abbrev pub level_names : List Text
level_names = text "debug" ∷ text "info" ∷ text "warn" ∷ text "error" ∷ []

abbrev pub name_at : List Text → ℕ → Text
name_at [] n = text "info"
name_at (name ∷ names) zero = name
name_at (name ∷ names) (suc n) = name_at names n

log_level-name_at : (level : ℕ) → log_level level ≡ name_at level_names level
unfolding log_level
log_level-name_at zero = refl
log_level-name_at (suc zero) = refl
log_level-name_at (suc (suc zero)) = refl
log_level-name_at (suc (suc (suc zero))) = refl
log_level-name_at (suc (suc (suc (suc n)))) =
    let m = suc (suc (suc (suc n))) in
    rw (
      neq→== m 0 (λ e. omega arith),
      neq→== m 1 (λ e. omega arith),
      neq→== m 2 (λ e. omega arith),
      neq→== m 3 (λ e. omega arith),
    )

abbrev pub log_payload : ℕ → ℕ → Text → Bytes
log_payload time level message = put_le 8 time ++ (level ∷ (put_le 2 (length message) ++ message))

-- A log report is read back, with whatever follows the message ignored: the time, the name of
-- the level (debug, info, warn and error for 0 to 3, info for any other) and the message. The time fits 64 bits and the message's length 16.
pub parse_log_payload-log_payload :
    (time level : ℕ) (message rest : Text)
    → time < 2 ^ 64
    → length message < 2 ^ 16
    → parse_log_payload (log_payload time level message ++ rest)
      ≡ ok (record {
        level = name_at level_names level;
        message = message;
        namespace = text "device";
        observed_at = time;
        fields = [];
      })
unfolding parse_log_payload put_le
parse_log_payload-log_payload time level message rest ht hm =
    let when_ = get_le-put_le 8 time ht in
    let size = get_le-put_le 2 (length message) hm in
    let whole = length-append message rest in
    let long = le→leb 11 (length (log_payload time level message ++ rest)) (omega arith) in
    let enough =
      le→leb (11 + length message) (length (log_payload time level message ++ rest))
        (omega (arith, whole)) in
    let cut = take-append_len (length message) message rest refl in
    rw (long, when_, size, enough, cut, log_level-name_at level)
