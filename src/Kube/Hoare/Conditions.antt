-- ===== src/Kube/Hoare/Conditions.antt =====
-- What holds before a call, and of its result and the world behind it.
use android_device_farm.Common.{◌≡◌, refl, Bool, true, false, Option, none, some, if◌then◌else◌}
use android_device_farm.Kube.Effect.{
  Result, ok, err, panicked, not_found, conflict, other, Exec, continue, or_none, or_conflict, pure,
  lift, optional, unless_conflict, ◌>>=◌,
}
use android_device_farm.Kube.Hoare.Invariant.{Keeps}

-- What holds at the end of a call: `Q` of its result, or `E` after an error.
abbrev pub Outcome : {S A : Type 0} → (S → Type 0) → (A → S → Type 0) → Result A × S → Type 0
Outcome E Q (ok a, s) = Q a s
Outcome E Q (err e, s) = E s
Outcome E Q (panicked, s) = E s

-- From `P` the call ends in `Q` of its result, or in `E` after an error.
pub record Triple {S A : Type 0} (P : S → Type 0) (m : Exec S A) (Q : A → S → Type 0)
    (E : S → Type 0) : Type 0 where
  pub run : (s : S) → P s → Outcome E Q (m s)

-- What holds of a value, where there is one.
abbrev pub Given : {S A : Type 0} → (S → Type 0) → (A → S → Type 0) → Option A → S → Type 0
Given N Q none s = N s
Given N Q (some a) s = Q a s

module _ {S A : Type 0} (E : S → Type 0) where
  Keeps-Outcome :
      (I : S → Type 0) → ((s : S) → I s → E s) → (r : Result A × S) → I r.1 → Outcome E (λ _. I) r
  Keeps-Outcome I i (ok a, s) h = h
  Keeps-Outcome I i (err e, s) h = i s h
  Keeps-Outcome I i (panicked, s) h = i s h

  Outcome-Keeps : (r : Result A × S) → Outcome E (λ _. E) r → E r.1
  Outcome-Keeps (ok a, s) h = h
  Outcome-Keeps (err e, s) h = h
  Outcome-Keeps (panicked, s) h = h

  or_none-Outcome :
      (Q : A → S → Type 0) (r : Result A × S) → Outcome E Q r → Outcome E (Given E Q) (or_none r)
  or_none-Outcome Q (ok a, s) h = h
  or_none-Outcome Q (err not_found, s) h = h
  or_none-Outcome Q (err conflict, s) h = h
  or_none-Outcome Q (err other, s) h = h
  or_none-Outcome Q (panicked, s) h = h

  or_conflict-Outcome :
      (Q : A → S → Type 0) (r : Result A × S)
      → Outcome E Q r
      → Outcome E (Given E Q) (or_conflict r)
  or_conflict-Outcome Q (ok a, s) h = h
  or_conflict-Outcome Q (err not_found, s) h = h
  or_conflict-Outcome Q (err conflict, s) h = h
  or_conflict-Outcome Q (err other, s) h = h
  or_conflict-Outcome Q (panicked, s) h = h

  continue-Outcome :
      {B : Type 0} (Q : A → S → Type 0) (R : B → S → Type 0) (f : A → Exec S B) (r : Result A × S)
      → Outcome E Q r
      → ((a : A) → Triple (Q a) (f a) R E)
      → Outcome E R (continue f r)
  continue-Outcome Q R f (ok a, s) h k = (k a).run s h
  continue-Outcome Q R f (err e, s) h k = h
  continue-Outcome Q R f (panicked, s) h k = h

  -- Both ends alike.
  Given-same : (o : Option A) (s : S) → Given E (λ _. E) o s → E s
  Given-same none s h = h
  Given-same (some a) s h = h

  Outcome-same : (r : Result (Option A) × S) → Outcome E (Given E (λ _. E)) r → Outcome E (λ _. E) r
  Outcome-same (ok o, s) h = Given-same o s h
  Outcome-same (err e, s) h = h
  Outcome-same (panicked, s) h = h

  Outcome-weaken :
      (E' : S → Type 0) (Q : A → S → Type 0) (r : Result A × S)
      → ((s : S) → E s → E' s)
      → Outcome E Q r
      → Outcome E' Q r
  Outcome-weaken E' Q (ok a, s) i h = h
  Outcome-weaken E' Q (err e, s) i h = i s h
  Outcome-weaken E' Q (panicked, s) i h = i s h

  Outcome-post :
      (Q R : A → S → Type 0) (r : Result A × S)
      → ((a : A) (s : S) → Q a s → R a s)
      → Outcome E Q r
      → Outcome E R r
  Outcome-post Q R (ok a, s) i h = i a s h
  Outcome-post Q R (err e, s) i h = h
  Outcome-post Q R (panicked, s) i h = h

module _ {S A : Type 0} {E : S → Type 0} where
  pub Triple-pure : {Q : A → S → Type 0} (a : A) → Triple (Q a) (pure a) Q E
  unfolding pure
  Triple-pure a = record { run = λ s h. h }

  -- A call that keeps the invariant and of whose result nothing need be known.
  pub Triple-frame :
      {I : S → Type 0} {m : Exec S A} → ((s : S) → I s → E s) → Keeps I m → Triple I m (λ _. I) E
  Triple-frame {I} {m} i k = record { run = λ s h. Keeps-Outcome E I i (m s) (k.run s h) }

  pub Triple-Keeps : {m : Exec S A} → Keeps E m → Triple E m (λ _. E) E
  Triple-Keeps = Triple-frame λ s h. h

  pub Keeps-Triple : {m : Exec S A} → Triple E m (λ _. E) E → Keeps E m
  Keeps-Triple {m} t = record { run = λ s h. Outcome-Keeps E (m s) (t.run s h) }

  pub Triple-end :
      {P : S → Type 0} {m : Exec S A} → Triple P m (λ _. E) E → (s : S) → P s → E (m s).1
  Triple-end {m} t s h = Outcome-Keeps E (m s) (t.run s h)

  -- What is known of the value that a library function returns.
  pub Triple-lift :
      {P : S → Type 0} (r : Result A)
      → ((s : S) → P s → E s)
      → Triple P (lift r) (λ a s. P s × (r ≡ ok a)) E
  unfolding lift
  Triple-lift (ok a) i = record { run = λ s h. (h, refl) }
  Triple-lift (err e) i = record { run = i }
  Triple-lift panicked i = record { run = i }

  -- A stronger precondition.
  pub Triple-pre :
      {P P' : S → Type 0} {m : Exec S A} {Q : A → S → Type 0}
      → ((s : S) → P s → P' s)
      → Triple P' m Q E
      → Triple P m Q E
  Triple-pre i t = record { run = λ s h. t.run s (i s h) }

  -- A fact that does not depend on the world.
  pub Triple-given :
      {P : S → Type 0} {F : Type 0} {m : Exec S A} {Q : A → S → Type 0}
      → (F → Triple P m Q E)
      → Triple (λ s. P s × F) m Q E
  Triple-given t = record { run = λ s h. (t h.1).run s h.0 }

  pub Triple-optional :
      {P : S → Type 0} {m : Exec S A} {Q : A → S → Type 0}
      → Triple P m Q E
      → Triple P (optional m) (Given E Q) E
  unfolding optional
  Triple-optional {m} {Q} t = record { run = λ s h. or_none-Outcome E Q (m s) (t.run s h) }

  pub Triple-optional_same :
      {P : S → Type 0} {m : Exec S A} → Triple P m (λ _. E) E → Triple P (optional m) (λ _. E) E
  unfolding optional
  Triple-optional_same {m} t = record {
    run = λ s h. Outcome-same E (optional m s) (or_none-Outcome E (λ _. E) (m s) (t.run s h));
  }

  pub Triple-unless_conflict_same :
      {P : S → Type 0} {m : Exec S A}
      → Triple P m (λ _. E) E
      → Triple P (unless_conflict m) (λ _. E) E
  unfolding unless_conflict
  Triple-unless_conflict_same {m} t = record {
    run = λ s h.
        Outcome-same E (unless_conflict m s) (or_conflict-Outcome E (λ _. E) (m s) (t.run s h));
  }

  pub Triple-if :
      (b : Bool) {P : S → Type 0} {m n : Exec S A} {Q : A → S → Type 0}
      → Triple P m Q E
      → Triple P n Q E
      → Triple P (if b then m else n) Q E
  Triple-if true t u = t
  Triple-if false t u = u

  -- A weaker postcondition.
  pub Triple-post :
      {P : S → Type 0} {m : Exec S A} {Q R : A → S → Type 0}
      → ((a : A) (s : S) → Q a s → R a s)
      → Triple P m Q E
      → Triple P m R E
  Triple-post {m} {Q} {R} i t = record { run = λ s h. Outcome-post E Q R (m s) i (t.run s h) }

  -- A weaker condition on errors.
  pub Triple-weaken :
      {P E' : S → Type 0} {m : Exec S A} {Q : A → S → Type 0}
      → ((s : S) → E s → E' s)
      → Triple P m Q E
      → Triple P m Q E'
  Triple-weaken {E'} {m} {Q} i t = record { run = λ s h. Outcome-weaken E E' Q (m s) i (t.run s h) }

  pub Triple-unless_conflict :
      {P : S → Type 0} {m : Exec S A} {Q : A → S → Type 0}
      → Triple P m Q E
      → Triple P (unless_conflict m) (Given E Q) E
  unfolding unless_conflict
  Triple-unless_conflict {m} {Q} t = record {
    run = λ s h. or_conflict-Outcome E Q (m s) (t.run s h);
  }

  pub Triple-bind :
      {B : Type 0} {P : S → Type 0} {m : Exec S A} {Q : A → S → Type 0} {f : A → Exec S B}
      {R : B → S → Type 0}
      → Triple P m Q E
      → ((a : A) → Triple (Q a) (f a) R E)
      → Triple P (m >>= f) R E
  unfolding ◌>>=◌
  Triple-bind {m} {Q} {f} {R} t k = record {
    run = λ s h. continue-Outcome E Q R f (m s) (t.run s h) k;
  }
