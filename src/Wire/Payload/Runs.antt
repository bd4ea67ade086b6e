-- ===== src/Wire/Payload/Runs.antt =====
-- Payloads of reports.
use goster_io_t.Common.{◌≡◌, refl, arith, [], ◌∷◌, ◌++◌, replicate}
use goster_io_t.Common.Result.{ok}
use goster_io_t.Common.Word.{get_le, put_le}
use goster_io_t.Common.Text.{text}
use goster_io_t.Wire.Payload.{
  Series, legacy_metric_name, metric_point, metric_points, parse_log_payload, parse_metrics_payload,
  parse_points,
}
use goster_io_t.Wire.Payload.Laws.{
  Measured, humidity_type, log_payload, metrics_payload, parse_log_payload-log_payload,
  parse_metrics_payload-Measured, parse_metrics_payload-metrics_payload, points_from,
}

abbrev humidity : Series
humidity = record {
  start = 1000;
  interval = 250;
  data_type = 2;
  name = text "humidity";
  unit = text "%";
}

parse_metrics_payload-metrics_payload_example :
    parse_metrics_payload (λ bits. bits) (metrics_payload 1000 250 2 (40 ∷ 41 ∷ []))
    ≡ ok (points_from (λ bits. bits) humidity 0 (40 ∷ 41 ∷ []))
parse_metrics_payload-metrics_payload_example =
    parse_metrics_payload-metrics_payload (λ bits. bits) 1000 250 2 (40 ∷ 41 ∷ []) (text "humidity")
      (text "%") (omega arith) (omega arith) (omega arith) (omega arith) humidity_type

parse_metrics_payload-Measured_example :
    Measured
      (metrics_payload 1000 250 2 (40 ∷ []))
      (points_from (λ bits. bits) humidity 0 (40 ∷ []))
unfolding parse_metrics_payload parse_points metric_points metric_point legacy_metric_name put_le
    get_le
parse_metrics_payload-Measured_example =
    parse_metrics_payload-Measured (λ bits. bits) (metrics_payload 1000 250 2 (40 ∷ []))
      (points_from (λ bits. bits) humidity 0 (40 ∷ [])) refl

parse_log_payload-log_payload_example :
    parse_log_payload (log_payload 5 2 (text "hot") ++ replicate 4 0)
    ≡ ok (record {
      level = text "warn";
      message = text "hot";
      namespace = text "device";
      observed_at = 5;
      fields = [];
    })
unfolding text
parse_log_payload-log_payload_example =
    parse_log_payload-log_payload 5 2 (text "hot") (replicate 4 0) (omega arith) (omega arith)
