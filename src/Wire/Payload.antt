-- ===== src/Wire/Payload.antt =====
-- payload.go: the payloads of registrations, metrics reports and log reports.
pub mod Laws
pub mod Runs
use goster_io_t.Common.{ℕ, zero, suc, ◌+◌, ◌*◌, none, some, List, [], ◌∷◌, leb, ◌==◌, if◌then◌else◌}
use goster_io_t.Common.{length, drop, get_or}
use goster_io_t.Common.Result.{Result, ok, err, ◌>>=◌, ◌>>◌, guard}
use goster_io_t.Common.Word.{Bytes, u64, get_le, slice}
use goster_io_t.Common.Text.{Text, text}
use goster_io_t.Adapter.Types.{DeviceDescriptor, LogRecord, MetricPoint, Time, no_device, no_value}

pub data PayloadError : Type 0 where
  too_few_fields : ℕ → PayloadError
  payload_too_short : PayloadError
  unsupported_type : ℕ → PayloadError
  length_mismatch : ℕ → ℕ → PayloadError
  message_truncated : PayloadError

-- The part that the text begins with grows by one byte.
abbrev pub onto_first : ℕ → List Text → List Text
onto_first c [] = (c ∷ []) ∷ []
onto_first c (part ∷ parts) = (c ∷ part) ∷ parts

-- strings.Split with a separator of one byte.
unfoldable pub split : ℕ → Text → List Text
split sep [] = [] ∷ []
split sep (c ∷ s) = let parts = split sep s in if c == sep then [] ∷ parts else onto_first c parts

abbrev pub field_separator : ℕ
field_separator = 0x1e

abbrev pub descriptor_of : List Text → Result PayloadError DeviceDescriptor
descriptor_of (name ∷ serial ∷ mac ∷ hardware ∷ software ∷ config ∷ more) = ok (record no_device {
  name = name;
  serial_number = serial;
  mac_address = mac;
  hardware_version = hardware;
  software_version = software;
  config_version = config;
  identities =
      record { kind = text "serial_number"; value = serial; issuer = text "" }
      ∷ record { kind = text "mac"; value = mac; issuer = text "" }
      ∷ [];
  labels = (text "adapter_protocol", text "goster-wy") ∷ [];
})
descriptor_of parts = err (too_few_fields (length parts))

unfoldable pub parse_registration_payload : Text → Result PayloadError DeviceDescriptor
parse_registration_payload payload = descriptor_of (split field_separator payload)

-- The name and the unit of a data type; the degree sign is two bytes.
unfoldable pub legacy_metric_name : ℕ → Result PayloadError (Text × Text)
legacy_metric_name data_type =
    if data_type == 1
    then ok (text "temperature", 0xc2 ∷ 0xb0 ∷ 0x43 ∷ [])
    else if data_type == 2
    then ok (text "humidity", text "%")
    else if data_type == 4
    then ok (text "illuminance", text "lx")
    else if data_type == 8
    then ok (text "access_signal_a", text "")
    else if data_type == 16
    then ok (text "access_signal_b", text "")
    else err (unsupported_type data_type)

unfoldable pub log_level : ℕ → Text
log_level level =
    if level == 0
    then text "debug"
    else if level == 1
    then text "info"
    else if level == 2
    then text "warn"
    else if level == 3
    then text "error"
    else text "info"

-- What the points of one report share.
pub record Series : Type 0 where
  pub start : Time
  pub interval : ℕ
  pub data_type : ℕ
  pub name : Text
  pub unit : Text

-- `float64(v)` takes the bits of a float32 to those of a float64.
module _ (widen : ℕ → ℕ) where
  unfoldable pub metric_point : Series → ℕ → ℕ → MetricPoint
  metric_point series i bits = record {
    name = series.name;
    value = record no_value { number = some (widen bits) };
    unit = series.unit;
    observed_at = u64 (series.start + i * series.interval);
    legacy_metric_type = series.data_type;
    tags = [];
  }

  -- The loop from index `i` on, over the rounds left.
  unfoldable pub metric_points : Series → Bytes → ℕ → ℕ → List MetricPoint
  metric_points series blob i zero = []
  metric_points series blob i (suc left) =
      metric_point series i (get_le (slice (i * 4) 4 blob)) ∷ metric_points series blob (i + 1) left

  -- From the check of the blob's length on.
  unfoldable pub parse_points : Bytes → Text × Text → Result PayloadError (List MetricPoint)
  parse_points payload (name, unit) =
      let count = get_le (slice 13 4 payload) in
      let blob = drop 17 payload in
      let series : Series = record {
        start = get_le (slice 0 8 payload);
        interval = get_le (slice 8 4 payload);
        data_type = get_or payload 12 0;
        name = name;
        unit = unit;
      } in
      if length blob == count * 4
      then ok (metric_points series blob 0 count)
      else err (length_mismatch (count * 4) (length blob))

  unfoldable pub parse_metrics_payload : Bytes → Result PayloadError (List MetricPoint)
  parse_metrics_payload payload =
      if leb 17 (length payload)
      then legacy_metric_name (get_or payload 12 0) >>= parse_points payload
      else err payload_too_short

unfoldable pub parse_log_payload : Bytes → Result PayloadError LogRecord
parse_log_payload payload = do
  guard (leb 11 (length payload)) payload_too_short
  let msg_len = get_le (slice 9 2 payload)
  guard (leb (11 + msg_len) (length payload)) message_truncated
  ok (record {
    level = log_level (get_or payload 8 0);
    message = slice 11 msg_len payload;
    namespace = text "device";
    observed_at = get_le (slice 0 8 payload);
    fields = [];
  })
