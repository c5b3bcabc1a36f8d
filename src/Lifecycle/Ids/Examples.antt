-- ===== src/Lifecycle/Ids/Examples.antt =====
-- A pod with one operation.
use kuperator.Common.{
  refl, [], ◌∷◌, codes, text_eq, lookup, insert, has_prefix, split_slash, join_slash,
}
use kuperator.Pod.{operating, operation_type, key, Labels, contains}
use kuperator.Pod.Sample.{sample_names}
use kuperator.Lifecycle.Ids.{IdMaps, id_to_labels_map, bump}
use kuperator.Lifecycle.Ids.Snapshot.{AllSnapshots, id_to_labels_map-AllSnapshots}

abbrev labels : Labels
labels =
    (key sample_names operating (codes "web"), codes "1")
    ∷ (key sample_names operation_type (codes "web"), codes "update")
    ∷ []

abbrev maps : IdMaps
maps = (
  (
    codes "web",
    (sample_names.prefix operation_type, codes "update")
        ∷ (sample_names.prefix operating, codes "1")
        ∷ [],
  )
      ∷ [],
  (codes "update", 1) ∷ [],
)

id_to_labels_map-AllSnapshots_example : AllSnapshots sample_names labels maps.0
unfolding id_to_labels_map bump text_eq lookup insert contains has_prefix split_slash join_slash
id_to_labels_map-AllSnapshots_example = id_to_labels_map-AllSnapshots sample_names labels maps refl
