-- ===== src/Transition/Fields/Examples.antt =====
-- A label, by its path.
use kuperator.Common.{◌≡◌, refl, ◌↔◌, true, some, [], ◌∷◌, codes, text_eq, lookup, ok}
use kuperator.Transition.Fields.{
  ObjectMeta, Formats, split_maybe_subscripted_path, trim_close, split_open,
  extract_field_path_as_string,
}
use kuperator.Transition.Fields.Subscript.{
  IsPlain, join_subscript, split_maybe_subscripted_path_iff,
}

abbrev web : ObjectMeta
web = record {
  annotations = [];
  labels = (codes "app", codes "web") ∷ [];
  name = codes "web-0";
  namespace = codes "default";
  uid = codes "7";
}

abbrev formats : Formats
formats = record { is_qualified_name = λ key. true; quote = λ v. v }

app_label :
    extract_field_path_as_string formats web (codes "metadata.labels['app']") ≡ ok (codes "web")
unfolding extract_field_path_as_string split_maybe_subscripted_path trim_close split_open text_eq
    lookup
app_label = refl

split_maybe_subscripted_path_iff_example :
    (split_maybe_subscripted_path (codes "metadata.labels['app']")
      ≡ some (codes "metadata.labels", codes "app"))
    ↔ ((codes "metadata.labels['app']" ≡ join_subscript (codes "metadata.labels", codes "app"))
        × IsPlain (codes "metadata.labels"))
split_maybe_subscripted_path_iff_example =
    split_maybe_subscripted_path_iff (codes "metadata.labels['app']") b'm' (codes "etadata.labels")
      (codes "app")
