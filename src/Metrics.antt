-- ===== src/Metrics.antt =====
-- class MetricsExporter of sandbox/src/metrics.cpp. A value is a double: its type and its two printed
-- forms are arguments.
pub mod Types
pub mod Order
pub mod Grouped
pub mod Labels
pub mod Server
mod Tests
use sandobox_cpp.Base.{
  ℕ, Bytes, List, [], ◌∷◌, ◌++◌, Bool, true, false, Assoc, bytes_eq, text, if◌then◌else◌,
}
use sandobox_cpp.Metrics.Types.{MetricType, Metric, MetricsExporter}
use sandobox_cpp.Metrics.Order.{bytes_lt}

abbrev pub type_str : MetricType → Bytes
type_str MetricType.counter = text "counter"
type_str MetricType.gauge = text "gauge"
type_str MetricType.histogram = text "histogram"

-- the loop of render_labels, where `first` says that nothing has been written
unfoldable pub label_pairs : Bool → Assoc Bytes → Bytes
label_pairs first [] = []
label_pairs first ((k, v) ∷ rest) =
    (if first then [] else text ",")
    ++ (k ++ (text "=\"" ++ (v ++ (text "\"" ++ label_pairs false rest))))

unfoldable pub render_labels : Assoc Bytes → Bytes
unfolding label_pairs
render_labels [] = []
render_labels (label ∷ labels) = text "{" ++ (label_pairs true (label ∷ labels) ++ text "}")

module _ {V : Type 0} where
  unfoldable pub record_metric :
      MetricType → Bytes → V → Assoc Bytes → MetricsExporter V → MetricsExporter V
  record_metric type name value labels e = record e {
    metrics = e.metrics ++ record { name = name; type = type; value = value; labels = labels } ∷ [];
  }

  unfoldable pub counter : Bytes → V → Assoc Bytes → MetricsExporter V → MetricsExporter V
  unfolding record_metric
  counter = record_metric MetricType.counter

  unfoldable pub gauge : Bytes → V → Assoc Bytes → MetricsExporter V → MetricsExporter V
  unfolding record_metric
  gauge = record_metric MetricType.gauge

  unfoldable pub histogram : Bytes → V → Assoc Bytes → MetricsExporter V → MetricsExporter V
  unfolding record_metric
  histogram = record_metric MetricType.histogram

  -- grouped[m.name].push_back(&m), in the std::map that is ordered by its keys
  unfoldable pub file_under : Metric V → Assoc (List (Metric V)) → Assoc (List (Metric V))
  file_under m [] = (m.name, m ∷ []) ∷ []
  file_under m ((name, ms) ∷ groups) =
      if bytes_eq name m.name
      then (name, ms ++ m ∷ []) ∷ groups
      else if bytes_lt m.name name
      then (m.name, m ∷ []) ∷ (name, ms) ∷ groups
      else (name, ms) ∷ file_under m groups

  unfoldable pub group_onto : Assoc (List (Metric V)) → List (Metric V) → Assoc (List (Metric V))
  unfolding file_under
  group_onto groups [] = groups
  group_onto groups (m ∷ ms) = group_onto (file_under m groups) ms

  unfoldable pub grouped : List (Metric V) → Assoc (List (Metric V))
  unfolding group_onto
  grouped = group_onto []

  -- the loops of the rendering, where `print` is operator<< of a double
  module _ (print : V → Bytes) where
    unfoldable pub samples : List (Metric V) → Bytes
    unfolding render_labels
    samples [] = []
    samples (m ∷ ms) =
        m.name
        ++ (render_labels m.labels ++ (text " " ++ (print m.value ++ (text "\n" ++ samples ms))))

    abbrev pub headers : Bytes → List (Metric V) → Bytes
    headers name [] = []
    headers name (m ∷ ms) =
        text "# HELP "
        ++ (name
            ++ (text " redisops metric\n# TYPE "
                ++ (name ++ (text " " ++ (type_str m.type ++ text "\n")))))

    unfoldable pub render_groups : Assoc (List (Metric V)) → Bytes
    unfolding samples
    render_groups [] = []
    render_groups ((name, ms) ∷ groups) =
        headers name ms ++ (samples ms ++ (text "\n" ++ render_groups groups))

    unfoldable pub render_prometheus : MetricsExporter V → Bytes
    unfolding render_groups grouped
    render_prometheus e = render_groups (grouped e.metrics)

  -- the loop of render_json, where `print` is std::format of a double
  module _ (print : V → Bytes) where
    unfoldable pub json_items : Bool → List (Metric V) → Bytes
    json_items first [] = []
    json_items first (m ∷ ms) =
        (if first then [] else text ",")
        ++ (text "{\"name\":\""
            ++ (m.name
                ++ (text "\",\"value\":" ++ (print m.value ++ (text "}" ++ json_items false ms)))))

    unfoldable pub render_json : MetricsExporter V → Bytes
    unfolding json_items
    render_json e = text "[" ++ (json_items true e.metrics ++ text "]")
