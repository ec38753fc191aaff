-- ===== src/Kube/Hoare/Results.antt =====
-- What is known of the value of a call that succeeds, wherever it starts.
use android_device_farm.Common.{◌≡◌, refl, subst}
use android_device_farm.Kube.Effect.{Result, ok, err, panicked, Exec}
use android_device_farm.Kube.Hoare.Conditions.{Outcome, Triple}

-- Each value that the call returns has the property.
abbrev pub Returns : {W A : Type 0} → Exec W A → (A → Type 0) → Type 0
Returns m Q = Triple (λ _. Unit) m (λ a _. Q a) (λ _. Unit)

module _ {W A : Type 0} (Q : A → Type 0) where
  known-Outcome :
      (r : Result A × W) → ((a : A) → r.0 ≡ ok a → Q a) → Outcome (λ _. Unit) (λ a _. Q a) r
  known-Outcome (ok a, w) q = q a refl
  known-Outcome (err e, w) q = tt
  known-Outcome (panicked, w) q = tt

module _ {W A : Type 0} {Q : A → Type 0} {m : Exec W A} where
  pub Returns-known : ((w : W) (a : A) → (m w).0 ≡ ok a → Q a) → Returns m Q
  Returns-known q = record { run = λ w _. known-Outcome Q (m w) (q w) }

  pub Returns-value : Returns m Q → (a : A) (w w' : W) → m w ≡ (ok a, w') → Q a
  Returns-value t a w w' e = subst (Outcome (λ _. Unit) (λ b _. Q b)) e (t.run w tt)

  -- A fact about values that came before.
  pub Returns-given : {F : Type 0} → (F → Returns m Q) → Triple (λ _. F) m (λ a _. Q a) (λ _. Unit)
  Returns-given t = record { run = λ w f. (t f).run w tt }
