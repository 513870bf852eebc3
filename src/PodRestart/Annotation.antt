-- ===== src/PodRestart/Annotation.antt =====
-- What the annotation of a manifest changes.
use cert_rotator.Base.{
  String, Option, some, ◌==◌, string_eq, if◌then◌else◌, ◌≡◌, ◌≢◌, refl, ap, ◌∙◌, arith,
}
use cert_rotator.Host.{Value, str, dict, Fields, end, field}
use cert_rotator.Detector.{lookup_field}
use cert_rotator.PodRestart.{set_field, submap, annotation_key, annotate}

lookup_field-set_field :
    (key other : String) (v : Value) (fs : Fields)
    → lookup_field other (set_field key v fs)
      ≡ (if other == key then some v else lookup_field other fs)
unfolding lookup_field set_field
lookup_field-set_field key other v end = refl
lookup_field-set_field key other v (field k w fs) =
    ground (arith, lookup_field-set_field key other v fs)

-- The path of two keys into a manifest.
abbrev pub annotation : String → Fields → Option Value
annotation key manifest = lookup_field key (submap "annotations" (submap "metadata" manifest))

submap-set_field : (key : String) (m fs : Fields) → submap key (set_field key (dict m) fs) ≡ m
unfolding submap
submap-set_field key m fs = ground (arith, lookup_field-set_field key key (dict m) fs)

-- An annotated manifest has the annotation with the stamp; its other annotations, the other fields
-- of its metadata and its other fields keep their values.
pub annotate_lem :
    (stamp key : String) (manifest : Fields)
    → (annotation key (annotate stamp manifest)
        ≡ (if key == annotation_key then some (str stamp) else annotation key manifest))
      × (key ≢ "annotations"
          → lookup_field key (submap "metadata" (annotate stamp manifest))
            ≡ lookup_field key (submap "metadata" manifest))
      × (key ≢ "metadata" → lookup_field key (annotate stamp manifest) ≡ lookup_field key manifest)
unfolding annotate
annotate_lem stamp key manifest =
    let metadata = submap "metadata" manifest in
    let annotations =
      set_field "cert-rotator/restarted-at" (str stamp) (submap "annotations" metadata) in
    (
      ap (λ m. lookup_field key (submap "annotations" m))
            (submap-set_field "metadata" (set_field "annotations" (dict annotations) metadata)
              manifest)
          ∙ ap (lookup_field key) (submap-set_field "annotations" annotations metadata)
          ∙ lookup_field-set_field "cert-rotator/restarted-at" key (str stamp)
              (submap "annotations" metadata),
      (λ ne.
          ap (lookup_field key) (
            submap-set_field "metadata" (set_field "annotations" (dict annotations) metadata)
              manifest)
          ∙ lookup_field-set_field "annotations" key (dict annotations) metadata
          ∙ ground (arith, ne)),
      (λ ne.
          lookup_field-set_field "metadata" key
            (dict (set_field "annotations" (dict annotations) metadata)) manifest
          ∙ ground (arith, ne)),
    )
