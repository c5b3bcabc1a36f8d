-- ===== src/Transition/Fields.antt =====
-- pkg/controllers/podtransitionrule/processor/rules/common.go: the values of a pod's fields for the
-- request of a webhook.
pub mod Subscript
pub mod Examples
use kuperator.Common.{
  ℕ, ◌+◌, Bool, true, false, not, ◌&&◌, ◌||◌, Option, none, some, List, [], ◌∷◌, ◌++◌,
  if◌then◌else◌, ◌==◌, leb, Text, codes, text_eq, Dict, lookup, Error, invalid_value, not_found,
  Result, ok, err, Outcome, returns, panics,
}
use kuperator.Transition.Status.{sort_strings}

-- strings.TrimSuffix(s, "']"), if the suffix is there.
abbrev is_close : Text → Bool
is_close (c ∷ d ∷ []) = c == 39 && d == 93
is_close _ = false

abbrev with_first : ℕ → Option Text → Option Text
with_first c none = none
with_first c (some s) = some (c ∷ s)

unfoldable pub trim_close : Text → Option Text
trim_close [] = none
trim_close (c ∷ s) =
    let rest = trim_close s in if is_close (c ∷ s) then some [] else with_first c rest

-- The two parts of strings.SplitN(s, "['", 2), if there are two.
abbrev pub open_rest : Text → Option Text
open_rest (c ∷ d ∷ s) = if c == 91 && d == 39 then some s else none
open_rest _ = none

abbrev pub found_or : ℕ → Option Text → Option (Text × Text) → Option (Text × Text)
found_or c (some rest) later = some ([], rest)
found_or c none none = none
found_or c none (some (path, rest)) = some (c ∷ path, rest)

unfoldable pub split_open : Text → Option (Text × Text)
split_open [] = none
split_open (c ∷ s) = found_or c (open_rest (c ∷ s)) (split_open s)

abbrev pub unless_empty : Option (Text × Text) → Option (Text × Text)
unless_empty none = none
unless_empty (some ([], rest)) = none
unless_empty (some (c ∷ path, rest)) = some (c ∷ path, rest)

abbrev pub split_trimmed : Option Text → Option (Text × Text)
split_trimmed none = none
split_trimmed (some s) = unless_empty (split_open s)

-- The path and the subscript, or none for a path without one.
unfoldable pub split_maybe_subscripted_path : Text → Option (Text × Text)
split_maybe_subscripted_path path = split_trimmed (trim_close path)

-- What meta.Accessor reads of an object, and what the code calls of other packages:
-- validation.IsQualifiedName, and the quoting of fmt's %q.
pub record ObjectMeta : Type 0 where
  pub annotations : Dict Text
  pub labels : Dict Text
  pub name : Text
  pub namespace : Text
  pub uid : Text

pub record Formats : Type 0 where
  pub is_qualified_name : Text → Bool
  pub quote : Text → Text

-- strings.ToLower. (A qualified name has no letters beyond ASCII.)
abbrev lower : Text → Text
lower [] = []
lower (c ∷ s) = (if leb 65 c && leb c 90 then c + 32 else c) ∷ lower s

abbrev or_empty : Option Text → Text
or_empty none = []
or_empty (some v) = v

unfoldable pub keys_of : Dict Text → List Text
keys_of [] = []
keys_of ((k, v) ∷ m) = k ∷ keys_of m

-- A line for each key, without the last line break.
unfoldable pub format_keys : Formats → Dict Text → List Text → Text
format_keys F m [] = []
format_keys F m (k ∷ []) = k ++ (codes "=" ++ F.quote (or_empty (lookup k m)))
format_keys F m (k ∷ j ∷ ks) =
    k ++ (codes "=" ++ (F.quote (or_empty (lookup k m)) ++ (10 ∷ format_keys F m (j ∷ ks))))

unfoldable pub format_map : Formats → Dict Text → Text
format_map F m = format_keys F m (sort_strings (keys_of m))

abbrev subscripted : Formats → ObjectMeta → Text → Text → Result Text
subscripted F o path key =
    if text_eq path (codes "metadata.annotations")
    then (if F.is_qualified_name (lower key)
        then ok (or_empty (lookup key o.annotations))
        else err invalid_value)
    else if text_eq path (codes "metadata.labels")
    then (if F.is_qualified_name key
        then ok (or_empty (lookup key o.labels))
        else err invalid_value)
    else err invalid_value

abbrev unsubscripted : Formats → ObjectMeta → Text → Result Text
unsubscripted F o path =
    if text_eq path (codes "metadata.annotations")
    then ok (format_map F o.annotations)
    else if text_eq path (codes "metadata.labels")
    then ok (format_map F o.labels)
    else if text_eq path (codes "metadata.name")
    then ok o.name
    else if text_eq path (codes "metadata.namespace")
    then ok o.namespace
    else if text_eq path (codes "metadata.uid")
    then ok o.uid
    else err invalid_value

abbrev extracted : Formats → ObjectMeta → Text → Option (Text × Text) → Result Text
extracted F o path (some (base, key)) = subscripted F o base key
extracted F o path none = unsubscripted F o path

unfoldable pub extract_field_path_as_string : Formats → ObjectMeta → Text → Result Text
extract_field_path_as_string F o path = extracted F o path (split_maybe_subscripted_path path)

-- A value of encoding/json: a missing key of an object gives null. The text is what json.Marshal
-- makes of the value.
pub data Json : Type 0 where
  string : Text → Json
  object : Text → (Text → Json) → Json
  other : Text → Json

-- strings.Split(s, ".")
unfoldable pub split_dot : Text → Text × List Text
split_dot [] = ([], [])
split_dot (c ∷ s) =
    let (first, rest) = split_dot s in if c == b'.' then ([], first ∷ rest) else (c ∷ first, rest)

-- GetFieldRef: each part but the last has to be an object, or the type assertion panics.
unfoldable pub get_field_ref : Json → Text × List Text → Outcome Json
get_field_ref (object text fields) (part, []) = returns (fields part)
get_field_ref (object text fields) (part, next ∷ parts) = get_field_ref (fields part) (next, parts)
get_field_ref (string text) path = panics
get_field_ref (other text) path = panics

abbrev text_of : Outcome Json → Outcome (Result Text)
text_of panics = panics
text_of (returns (string text)) = returns (ok text)
text_of (returns (object text fields)) = returns (ok text)
text_of (returns (other text)) = returns (ok text)

abbrev or_field_ref : Json → Text → Result Text → Outcome (Result Text)
unfolding get_field_ref
or_field_ref raw path (ok v) = returns (ok v)
or_field_ref raw path (err e) = text_of (get_field_ref raw (split_dot path))

-- ExtractValueFromPod, with the pod as json.Marshal and Unmarshal give it.
unfoldable pub extract_value_from_pod : Formats → ObjectMeta → Json → Text → Outcome (Result Text)
unfolding or_field_ref
extract_value_from_pod F o raw path = or_field_ref raw path (extract_field_path_as_string F o path)
