-- ===== src/Metrics/Types.antt =====
-- The data of sandbox/include/devops/metrics.hpp, over the type of the values.
use sandobox_cpp.Base.{Bytes, List, Assoc}

pub data MetricType : Type 0 where
  counter gauge histogram : MetricType

pub record Metric (V : Type 0) : Type 0 where
  pub name : Bytes
  pub type : MetricType
  pub value : V
  pub labels : Assoc Bytes

pub record MetricsExporter (V : Type 0) : Type 0 where
  pub metrics : List (Metric V)
