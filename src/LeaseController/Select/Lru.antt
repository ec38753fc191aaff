-- ===== src/LeaseController/Select/Lru.antt =====
-- `lruIdleOtherClass` picks an idle device of another class that was least recently used.
use android_device_farm.Common.{
  ◌≢◌, ◌↔◌, eq_iff, ℕ, suc, ◌≤◌, ◌≡◌, ◌⊎◌, String, true, false, ◌&&◌, Option, none, some, List, [],
  ◌∷◌, In, All, arith, if◌then◌else◌, Bool-cases, inl, inr,
}
use android_device_farm.Go.Time.{Time}
use android_device_farm.Api.Device.{Device, ready}
use android_device_farm.LeaseController.Select.{
  is_idle_other, replaces, older, older_last_used, lru_from, lru_idle_other_class,
}

-- A device that was never used counts as older than any time.
abbrev pub age_rank : Option Time → ℕ
age_rank none = 0
age_rank (some t) = suc t

-- `r` is there, and ranks no higher than the other, where that is there.
abbrev pub Below : Option Device → Option Device → Type 0
Below r none = Unit
Below none (some b) = ⊥
Below (some r) (some b) = age_rank r.status.last_used_time ≤ age_rank b.status.last_used_time

older-rank : (a b : Option Time) → older a b ≡ true → age_rank a ≤ age_rank b
older-rank none b h = omega arith
older-rank (some a) none h = cc
older-rank (some a) (some b) h = ground arith

not_older-rank : (a b : Option Time) → older a b ≡ false → age_rank b ≤ age_rank a
not_older-rank none b h = cc
not_older-rank (some a) none h = omega arith
not_older-rank (some a) (some b) h = ground arith

Below-trans : (a b c : Option Device) → Below a b → Below b c → Below a c
Below-trans a b none h k = tt
Below-trans a none (some c) h k = absurd k
Below-trans none (some b) (some c) h k = absurd h
Below-trans (some a) (some b) (some c) h k = omega arith

-- One round of the loop.
next_best : String → Device → Option Device → Option Device
next_best class d best = if is_idle_other class d && replaces d best then some d else best

next_best-Below :
    (class : String) (d : Device) (best : Option Device) → Below (next_best class d best) best
unfolding next_best older_last_used
next_best-Below class d none = tt
next_best-Below class d (some b) =
    ground (arith, older-rank d.status.last_used_time b.status.last_used_time)

next_best-Below_self :
    (class : String) (d : Device) (best : Option Device)
    → is_idle_other class d ≡ true
    → Below (next_best class d best) (some d)
unfolding next_best older_last_used
next_best-Below_self class d none h = rw h (omega arith)
next_best-Below_self class d (some b) h =
    ground (arith, not_older-rank d.status.last_used_time b.status.last_used_time)

lru_from-Below :
    (class : String) (best : Option Device) (devs : List Device)
    → Below (lru_from class best devs) best
unfolding lru_from next_best
lru_from-Below class none [] = tt
lru_from-Below class (some b) [] = omega arith
lru_from-Below class best (d ∷ devs) =
    Below-trans (lru_from class best (d ∷ devs)) (next_best class d best) best
      (lru_from-Below class (next_best class d best) devs) (next_best-Below class d best)

lru_from-oldest :
    (class : String) (best : Option Device) (devs : List Device)
    → All (λ d. is_idle_other class d ≡ true → Below (lru_from class best devs) (some d)) devs
unfolding lru_from next_best
lru_from-oldest class best [] = tt
lru_from-oldest class best (d ∷ devs) = (
  λ h.
      Below-trans (lru_from class best (d ∷ devs)) (next_best class d best) (some d)
        (lru_from-Below class (next_best class d best) devs) (next_best-Below_self class d best h),
  lru_from-oldest class (next_best class d best) devs,
)

lru_from-In :
    (class : String) (best : Option Device) (devs : List Device) (v : Device)
    → lru_from class best devs ≡ some v
    → (best ≡ some v) ⊎ (In v devs × (is_idle_other class v ≡ true))
unfolding lru_from
lru_from-In class best [] v e = inl e
lru_from-In class best (d ∷ devs) v e =
    elim (Bool-cases (is_idle_other class d && replaces d best)) [
      | inl taken ↦ ground (arith, lru_from-In class (some d) devs v)
      | inr kept ↦ ground (arith, lru_from-In class best devs v)
    ]

-- A device of another class that is Ready, that no lease holds and that is not being deleted.
abbrev pub IsIdleOther : String → Device → Type 0
IsIdleOther class d =
    (d.metadata.deletion_timestamp ≡ none)
    × (d.spec.class_ref ≢ class)
    × (d.status.phase ≡ ready)
    × (d.status.lease_ref ≡ "")

is_idle_other_iff :
    (class : String) (d : Device) → (is_idle_other class d ≡ true) ↔ IsIdleOther class d
is_idle_other_iff class d =
    ground (arith, eq_iff d.spec.class_ref class, eq_iff d.status.lease_ref "")

All-map :
    (P Q : Device → Type 0) (devs : List Device)
    → ((d : Device) → P d → Q d)
    → All P devs
    → All Q devs
All-map P Q [] f h = tt
All-map P Q (d ∷ devs) f (h, hs) = (f d h, All-map P Q devs f hs)

-- The loop starts without a best device.
from_list :
    (v : Device) (devs : List Device) (class : String)
    → ((none ≡ some v) ⊎ (In v devs × (is_idle_other class v ≡ true)))
    → In v devs × (is_idle_other class v ≡ true)
from_list v devs class (inl e) = cc
from_list v devs class (inr h) = h

-- A victim is in the list, of another class, Ready, held by no lease and not being deleted, and
-- no such device of the list was used less recently; a device that was never used comes first.
pub lru_idle_other_class-some :
    (devs : List Device) (class : String) (v : Device)
    → lru_idle_other_class devs class ≡ some v
    → In v devs
      × IsIdleOther class v
      × All
          (λ d.
            IsIdleOther class d
            → age_rank v.status.last_used_time ≤ age_rank d.status.last_used_time)
          devs
unfolding lru_idle_other_class
lru_idle_other_class-some devs class v e =
    let (place, idle) = from_list v devs class (lru_from-In class none devs v e) in
    (
      place,
      (is_idle_other_iff class v).0 idle,
      All-map _ _ devs (λ d f i. f ((is_idle_other_iff class d).1 i))
          (rw e at (lru_from-oldest class none devs)),
    )

-- Where there is no victim, no device of the list is idle and of another class.
pub lru_idle_other_class-none :
    (devs : List Device) (class : String)
    → lru_idle_other_class devs class ≡ none
    → All (λ d. ¬ IsIdleOther class d) devs
unfolding lru_idle_other_class
lru_idle_other_class-none devs class e =
    All-map _ _ devs (λ d f i. f ((is_idle_other_iff class d).1 i))
      (rw e at (lru_from-oldest class none devs))
