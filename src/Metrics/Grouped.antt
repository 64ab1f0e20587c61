-- ===== src/Metrics/Grouped.antt =====
-- How render_prometheus groups the metrics.
use sandobox_cpp.Base.{
  text, ◌≡◌, Bytes, List, [], ◌∷◌, ◌++◌, filter, true, Assoc, Option, none, some, lookup, bytes_eq,
}
use sandobox_cpp.Metrics.Types.{Metric}
use sandobox_cpp.Metrics.Order.{bytes_lt}
use sandobox_cpp.Metrics.{headers, samples}

module _ {V : Type 0} where
  -- Every key is above k.
  abbrev pub Above : Bytes → Assoc (List (Metric V)) → Type 0
  Above k [] = Unit
  Above k ((j, ms) ∷ groups) = (bytes_lt k j ≡ true) × Above k groups

  -- The keys ascend.
  abbrev pub Ascends : Assoc (List (Metric V)) → Type 0
  Ascends [] = Unit
  Ascends ((k, ms) ∷ groups) = Above k groups × Ascends groups

  abbrev pub or_nil : Option (List (Metric V)) → List (Metric V)
  or_nil none = []
  or_nil (some ms) = ms

  -- The metrics of a name, if it has a group.
  abbrev pub members : Bytes → Assoc (List (Metric V)) → List (Metric V)
  members name groups = or_nil (lookup name groups)

  -- The sections of some names: under the header of each, the metrics that have it.
  abbrev pub sections : (V → Bytes) → List (Metric V) → List Bytes → Bytes
  sections print ms [] = []
  sections print ms (name ∷ names) =
      let own = filter (λ m. bytes_eq m.name name) ms in
      headers print name own ++ (samples print own ++ (text "\n" ++ sections print ms names))

  abbrev pub names_of : Assoc (List (Metric V)) → List Bytes
  names_of [] = []
  names_of ((name, ms) ∷ groups) = name ∷ names_of groups
