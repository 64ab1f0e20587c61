-- ===== src/Metrics/Labels.antt =====
-- The text of labels and of JSON is not escaped.
use sandobox_cpp.Base.{◌≡◌, Bytes, ◌∷◌, ◌++◌, append_assoc, text, Assoc}
use sandobox_cpp.Metrics.{render_labels}

-- What the value of a label has to hold to be read as the end of the label and the next one.
abbrev pub forged : Bytes → Bytes → Bytes → Bytes
forged v k₂ v₂ = v ++ (text "\",") ++ (k₂ ++ (text "=\"" ++ v₂))

-- A label's value with a quote in it passes for further labels: one label whose value is made up so is
-- rendered as two, whatever labels follow.
render_labels-forged :
    (k v k₂ v₂ : Bytes) (rest : Assoc Bytes)
    → render_labels ((k, forged v k₂ v₂) ∷ rest) ≡ render_labels ((k, v) ∷ (k₂, v₂) ∷ rest)
unfolding render_labels
render_labels-forged k v k₂ v₂ rest = simp append_assoc
