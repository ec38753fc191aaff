-- ===== src/Kube/Hoare/Invariant.antt =====
-- An invariant of the world that a call keeps, and a rule for each way to build a call.
use android_device_farm.Common.{◌≡◌, refl, sym, subst, Bool, true, false, if◌then◌else◌}
use android_device_farm.Kube.Effect.{
  ApiError, Result, ok, err, panicked, not_found, conflict, other, Exec, continue, or_none,
  or_conflict, or_failed, pure, raise, lift, optional, unless_conflict, tried, ◌>>=◌,
}

-- `m` keeps `Inv`, however it ends.
pub record Keeps {S A : Type 0} (Inv : S → Type 0) (m : Exec S A) : Type 0 where
  pub run : (s : S) → Inv s → Inv (m s).1

module _ {S A : Type 0} (Inv : S → Type 0) where
  or_none-Keeps : (r : Result A × S) → Inv r.1 → Inv (or_none r).1
  or_none-Keeps (ok a, s) h = h
  or_none-Keeps (err not_found, s) h = h
  or_none-Keeps (err conflict, s) h = h
  or_none-Keeps (err other, s) h = h
  or_none-Keeps (panicked, s) h = h

  or_conflict-Keeps : (r : Result A × S) → Inv r.1 → Inv (or_conflict r).1
  or_conflict-Keeps (ok a, s) h = h
  or_conflict-Keeps (err not_found, s) h = h
  or_conflict-Keeps (err conflict, s) h = h
  or_conflict-Keeps (err other, s) h = h
  or_conflict-Keeps (panicked, s) h = h

  or_failed-Keeps : (r : Result A × S) → Inv r.1 → Inv (or_failed r).1
  or_failed-Keeps (ok a, s) h = h
  or_failed-Keeps (err e, s) h = h
  or_failed-Keeps (panicked, s) h = h

  continue-Keeps :
      {B : Type 0} (f : A → Exec S B) (r : Result A × S)
      → Inv r.1
      → ((a : A) → Keeps Inv (f a))
      → Inv (continue f r).1
  continue-Keeps f (ok a, s) h k = (k a).run s h
  continue-Keeps f (err e, s) h k = h
  continue-Keeps f (panicked, s) h k = h

module _ {S A : Type 0} {Inv : S → Type 0} where
  -- A call that leaves the world as it is.
  unmoved : {m : Exec S A} → ((s : S) → (m s).1 ≡ s) → Keeps Inv m
  unmoved same = record { run = λ s. subst Inv (sym (same s)) }

  pub Keeps-lift : (r : Result A) → Keeps Inv (lift r)
  unfolding lift
  Keeps-lift r = unmoved λ s. refl

  pub Keeps-pure : (a : A) → Keeps Inv (pure a)
  unfolding pure
  Keeps-pure a = unmoved λ s. refl

  pub Keeps-raise : (e : ApiError) → Keeps Inv (raise {A = A} e)
  unfolding raise
  Keeps-raise e = unmoved λ s. refl

  pub Keeps-optional : {m : Exec S A} → Keeps Inv m → Keeps Inv (optional m)
  unfolding optional
  Keeps-optional {m} k = record { run = λ s h. or_none-Keeps Inv (m s) (k.run s h) }

  pub Keeps-unless_conflict : {m : Exec S A} → Keeps Inv m → Keeps Inv (unless_conflict m)
  unfolding unless_conflict
  Keeps-unless_conflict {m} k = record { run = λ s h. or_conflict-Keeps Inv (m s) (k.run s h) }

  pub Keeps-tried : {m : Exec S A} → Keeps Inv m → Keeps Inv (tried m)
  unfolding tried
  Keeps-tried {m} k = record { run = λ s h. or_failed-Keeps Inv (m s) (k.run s h) }

  pub Keeps-if :
      (b : Bool) {m n : Exec S A} → Keeps Inv m → Keeps Inv n → Keeps Inv (if b then m else n)
  Keeps-if true k l = k
  Keeps-if false k l = l

  pub Keeps-bind :
      {B : Type 0} {m : Exec S A} {f : A → Exec S B}
      → Keeps Inv m
      → ((a : A) → Keeps Inv (f a))
      → Keeps Inv (m >>= f)
  unfolding ◌>>=◌
  Keeps-bind {m} {f} k l = record { run = λ s h. continue-Keeps Inv f (m s) (k.run s h) l }

-- A fold over calls by `search`.
pub ruleset keeps_rules = (
  Keeps-pure, Keeps-raise, Keeps-lift, Keeps-optional, Keeps-unless_conflict, Keeps-tried, Keeps-if,
  Keeps-bind,
)
