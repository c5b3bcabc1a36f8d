-- ===== src/Expectations/Active/Item.antt =====
-- An expected action on one object, and whether the cluster shows it.
use kuperator.Common.{
  ℕ, ◌+◌, ◌*◌, Bool, true, false, not, Option, none, some, ltb, Text, codes, text_eq, signed_lt,
  parse_int, ◌||◌,
}

pub data Action : Type 0 where
  create delete update : Action

abbrev pub Kind : Type 0
Kind = Text

-- The kinds that ResourceInitializers has.
unfoldable pub is_supported : Kind → Bool
unfolding text_eq
is_supported kind =
    text_eq kind (codes "pod")
    || text_eq kind (codes "pvc")
    || text_eq kind (codes "CollaSet")
    || text_eq kind (codes "ResourceContext")

-- `resource_version` is int64.
pub record ActiveExpectationItem : Type 0 where
  pub key : Text
  pub name : Text
  pub kind : Kind
  pub action : Action
  pub resource_version : ℕ
  pub record_timestamp : ℕ

abbrev pub item_key : ActiveExpectationItem → Text
item_key i = i.key

-- What the code reads of an object: the text of its version, and if its deletion has begun.
pub record Resource : Type 0 where
  pub resource_version : Text
  pub is_deleting : Bool

-- The client's Get: an object, a NotFound error, or another error.
pub data Fetched : Type 0 where
  fetched : Resource → Fetched
  missing broken : Fetched

-- By kind, namespace and name.
abbrev pub Api : Type 0
Api = Kind → Text → Text → Fetched

-- Thirty seconds, for a watch event that is missed.
abbrev pub tolerance : ℕ
tolerance = 30 * 1_000_000_000

abbrev pub reached : Option ℕ → ℕ → Bool
reached none rv = true
reached (some v) rv = not (signed_lt v rv)

abbrev pub satisfied_by : Action → Fetched → ℕ → ActiveExpectationItem → Bool
satisfied_by create (fetched r) now i = true
satisfied_by create missing now i = ltb (i.record_timestamp + tolerance) now
satisfied_by create broken now i = false
satisfied_by delete (fetched r) now i = r.is_deleting
satisfied_by delete missing now i = true
satisfied_by delete broken now i = false
satisfied_by update (fetched r) now i = reached (parse_int r.resource_version) i.resource_version
satisfied_by update missing now i = true
satisfied_by update broken now i = false

unfoldable pub item_is_satisfied : Api → ℕ → Text → ActiveExpectationItem → Bool
item_is_satisfied api now namespace i = satisfied_by i.action (api i.kind namespace i.name) now i
