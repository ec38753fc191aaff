-- ===== src/Tests/Library.antt =====
-- Concrete library functions, which keep the laws.
use android_device_farm.Common.{
  ◌*◌, ◌/◌, ◌≡◌, refl, String, Bool, true, false, ◌&&◌, ◌==◌, Option, none, some, List, [], ◌∷◌,
  str_eq, eq_iff, if◌then◌else◌, arith, keep, not, Bool-cases, inl, inr,
}
use android_device_farm.Common.Int.{ℤ, pos}
use android_device_farm.Go.Time.{Time, second}
use android_device_farm.Go.Strconv.{itoa, atoi, atoi-itoa}
use android_device_farm.Api.Meta.{
  Condition, ConditionStatus, condition_true, condition_false, condition_unknown,
}
use android_device_farm.Kube.Effect.{ok}
use android_device_farm.Kube.Client.{Machinery}
use android_device_farm.Kube.Laws.{SetsOnce, KeepsSeconds}

abbrev same_status : ConditionStatus → ConditionStatus → Bool
same_status condition_true condition_true = true
same_status condition_false condition_false = true
same_status condition_unknown condition_unknown = true
same_status _ _ = false

abbrev same : Condition → Condition → Bool
same c d =
    same_status c.status d.status
    && str_eq c.reason d.reason
    && str_eq c.message d.message
    && c.observed_generation == d.observed_generation

abbrev changed : Condition → List Condition × Bool → List Condition × Bool
changed c (l, b) = (c ∷ l, b)

unfoldable pub set_condition : List Condition → Condition → List Condition × Bool
set_condition [] c = (c ∷ [], true)
set_condition (d ∷ l) c =
    let rest = set_condition l c in
    if str_eq d.condition_type c.condition_type
    then (if same d c then (d ∷ l, false) else (c ∷ l, true))
    else changed d rest

same_refl : (c : Condition) → same c c ≡ true
same_refl c = ground (arith, eq_iff c.reason c.reason, eq_iff c.message c.message)

same_type : (c : Condition) → str_eq c.condition_type c.condition_type ≡ true
same_type c = ground (arith, eq_iff c.condition_type c.condition_type)

set_condition-same :
    (d c : Condition) (l : List Condition)
    → str_eq d.condition_type c.condition_type ≡ true
    → same d c ≡ true
    → set_condition (d ∷ l) c ≡ (d ∷ l, false)
unfolding set_condition
set_condition-same d c l mine alike = rw (mine, alike) refl

set_condition-other :
    (d c : Condition) (l : List Condition)
    → str_eq d.condition_type c.condition_type ≡ false
    → set_condition (d ∷ l) c ≡ (d ∷ (set_condition l c).0, (set_condition l c).1)
unfolding set_condition
set_condition-other d c l other = rw other refl

set_condition-unlike :
    (d c : Condition) (l : List Condition)
    → str_eq d.condition_type c.condition_type ≡ true
    → same d c ≡ false
    → set_condition (d ∷ l) c ≡ (c ∷ l, true)
unfolding set_condition
set_condition-unlike d c l mine unlike = rw (mine, unlike) refl

set_condition-nil : (c : Condition) → set_condition [] c ≡ (c ∷ [], true)
unfolding set_condition
set_condition-nil c = refl

set_condition-once :
    (l : List Condition) (c : Condition)
    → set_condition (set_condition l c).0 c ≡ ((set_condition l c).0, false)
set_condition-once [] c =
    rw (set_condition-nil c) (set_condition-same c c [] (same_type c) (same_refl c))
set_condition-once (d ∷ l) c = elim (Bool-cases (str_eq d.condition_type c.condition_type)) [
  | inr other ↦
      rw
        (
          set_condition-other d c l other,
          set_condition-other d c (set_condition l c).0 other,
          set_condition-once l c,
        )
        refl
  | inl mine ↦ elim (Bool-cases (same d c)) [
    | inl alike ↦ rw (set_condition-same d c l mine alike) (set_condition-same d c l mine alike)
    | inr unlike ↦
        rw (set_condition-unlike d c l mine unlike)
          (set_condition-same c c l (same_type c) (same_refl c))
  ]
]

abbrev in_seconds : Option ℤ → Option Time
in_seconds (some (pos n)) = some (n * second)
in_seconds _ = none

unfoldable pub parse_seconds : String → Option Time
parse_seconds s = in_seconds (atoi s)

abbrev pub contains : String → List String → Bool
contains f [] = false
contains f (g ∷ fs) = let rest = contains f fs in if str_eq g f then true else rest

abbrev pub machinery : Machinery
machinery = record {
  set_status_condition = set_condition;
  set_controller_reference = λ kind owner m.
      ok (record m { owner_references = record { kind = kind; name = owner.name } ∷ [] });
  contains_finalizer = λ m f. contains f m.finalizers;
  add_finalizer = λ m f. record m { finalizers = f ∷ m.finalizers };
  remove_finalizer = λ m f. record m { finalizers = keep (λ g. not (str_eq g f)) m.finalizers };
  format_rfc3339 = λ t. itoa (pos (t / second));
  parse_rfc3339 = parse_seconds;
}

pub sets_once : SetsOnce machinery
sets_once = set_condition-once

pub keeps_seconds : KeepsSeconds machinery
unfolding parse_seconds
keeps_seconds t h = rw (atoi-itoa (t / second) (omega arith)) refl
