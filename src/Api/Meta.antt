-- ===== src/Api/Meta.antt =====
-- The fields of `metav1.ObjectMeta` and `metav1.Condition` that the operator reads or writes.
use android_device_farm.Common.{ℕ, String, Option, none, some, List, [], ◌∷◌, str_eq}
use android_device_farm.Common.{if◌then◌else◌, ◌≡◌, refl, arith, eq_iff, true, ◌↔◌}
use android_device_farm.Go.Time.{Time}

-- A Go map from strings to strings; a nil map reads as an empty one.
abbrev pub Labels : Type 0
Labels = List (String × String)

abbrev pub lookup : String → Labels → Option String
lookup k [] = none
lookup k ((j, v) ∷ m) = let rest = lookup k m in if str_eq j k then some v else rest

-- `m[key] = value`
unfoldable pub insert : String → String → Labels → Labels
insert key value [] = (key, value) ∷ []
insert key value (entry ∷ rest) =
    let later = insert key value rest in
    if str_eq entry.0 key then (key, value) ∷ rest else entry ∷ later

-- `delete(m, key)`
unfoldable pub delete : String → Labels → Labels
delete key [] = []
delete key (entry ∷ rest) =
    let later = delete key rest in if str_eq entry.0 key then later else entry ∷ later

-- The comparisons that a lookup behind a write makes.
abbrev Compares : String → String → String → Type 0
Compares entry key other =
    ((str_eq key other ≡ true) ↔ (key ≡ other))
    × ((str_eq entry key ≡ true) ↔ (entry ≡ key))
    × ((str_eq entry other ≡ true) ↔ (entry ≡ other))

compares : (entry key other : String) → Compares entry key other
compares entry key other = (eq_iff key other, eq_iff entry key, eq_iff entry other)

pub lookup-insert :
    (key other value : String) (labels : Labels)
    → lookup other (insert key value labels)
      ≡ (if str_eq key other then some value else lookup other labels)
unfolding insert
lookup-insert key other value [] = refl
lookup-insert key other value (entry ∷ rest) =
    let before = lookup-insert key other value rest in
    ground (compares entry.0 key other, before, arith)

pub lookup-delete :
    (key other : String) (labels : Labels)
    → lookup other (delete key labels) ≡ (if str_eq key other then none else lookup other labels)
unfolding delete
lookup-delete key other [] = ground arith
lookup-delete key other (entry ∷ rest) =
    let before = lookup-delete key other rest in ground (compares entry.0 key other, before, arith)

pub record OwnerReference : Type 0 where
  pub kind : String
  pub name : String

pub record ObjectMeta : Type 0 where
  pub name : String
  pub generate_name : String
  pub namespace : String
  pub resource_version : String
  pub generation : ℕ
  pub labels : Labels
  pub annotations : Labels
  pub finalizers : List String
  pub owner_references : List OwnerReference
  pub deletion_timestamp : Option Time

-- The `ObjectMeta` of a literal that sets the name, the namespace and the labels.
abbrev pub named : String → String → Labels → ObjectMeta
named name namespace labels = record {
  name = name;
  generate_name = "";
  namespace = namespace;
  resource_version = "";
  generation = 0;
  labels = labels;
  annotations = [];
  finalizers = [];
  owner_references = [];
  deletion_timestamp = none;
}

pub data ConditionStatus : Type 0 where
  condition_true condition_false condition_unknown : ConditionStatus

pub record Condition : Type 0 where
  pub condition_type : String
  pub status : ConditionStatus
  pub observed_generation : ℕ
  pub reason : String
  pub message : String

-- `client.ObjectKey`; the namespace of a cluster-scoped object is empty.
pub record ObjectKey : Type 0 where
  pub namespace : String
  pub name : String

abbrev pub key_of : ObjectMeta → ObjectKey
key_of m = record { namespace = m.namespace; name = m.name }
