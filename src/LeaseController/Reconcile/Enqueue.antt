-- ===== src/LeaseController/Reconcile/Enqueue.antt =====
-- Which leases `leasesForDevice` enqueues.
use android_device_farm.Common.{
  sym, ◌∙◌, ◌≡◌, refl, String, true, ◌⊎◌, ◌↔◌, inl, inr, none, some, List, [], ◌∷◌, In, eq_iff,
  Bool-cases, arith,
}
use mathlib.Core.Bool.{false≢true}
use android_device_farm.Api.Meta.{ObjectKey, key_of}
use android_device_farm.Api.DeviceLease.{DeviceLease, LeasePhase}
use android_device_farm.Kube.Effect.{ok, ◌>>=◌}
use android_device_farm.Kube.Client.{Env}
use android_device_farm.LeaseController.Reconcile.{concerns, keys_concerned, leases_for_device}

-- A lease that waits, or that is bound to the device.
abbrev pub IsConcerned : String → DeviceLease → Type 0
IsConcerned device l =
    (l.status.phase ≡ LeasePhase.unset)
    ⊎ (l.status.phase ≡ LeasePhase.pending)
    ⊎ (l.status.device_ref ≡ device)

concerns_iff :
    (device : String) (l : DeviceLease) → (concerns device l ≡ true) ↔ IsConcerned device l
concerns_iff device l = ground (arith, eq_iff l.status.device_ref device)

-- A lease of the list that is concerned has the key.
abbrev pub Enqueued : String → ObjectKey → List DeviceLease → Type 0
Enqueued device key [] = ⊥
Enqueued device key (l ∷ leases) =
    (IsConcerned device l × (key ≡ key_of l.metadata)) ⊎ Enqueued device key leases

either : {A B C : Type 0} → (A → C) → (B → C) → A ⊎ B → C
either f g (inl a) = f a
either f g (inr b) = g b

keys_concerned-In :
    (device : String) (key : ObjectKey) (leases : List DeviceLease)
    → In key (keys_concerned device (some leases)) ↔ Enqueued device key leases
keys_concerned-In device key [] = ground arith
keys_concerned-In device key (l ∷ leases) =
    let (rest, back) = keys_concerned-In device key leases in
    elim (Bool-cases (concerns device l)) [
      | inl met ↦ rw met (
        either (λ e. inl ((concerns_iff device l).0 met, e)) (λ m. inr (rest m)),
        either (λ h. inl h.1) (λ h. inr (back h)),
      )
      | inr unmet ↦ rw unmet (
        (λ m. inr (rest m)),
        either (λ h. absurd (false≢true (sym unmet ∙ (concerns_iff device l).1 h.0))) back,
      )
    ]

module _ {W : Type 0} (env : Env W) where
  -- Where the listing succeeds, `leasesForDevice` returns keys, and a key is among them exactly if it
  -- is that of a lease of the list that is Pending, without a phase yet, or bound to the device.
  pub leases_for_device-In :
      (device : ObjectKey) (leases : List DeviceLease) (w w' : W)
      → env.list_leases (record { namespace = device.namespace; label = none }) w ≡ (ok leases, w')
      → (keys : List ObjectKey) × (leases_for_device env device w ≡ (ok keys, w'))
        × ((key : ObjectKey) → In key keys ↔ Enqueued device.name key leases)
  unfolding leases_for_device
  leases_for_device-In device leases w w' e = (
    keys_concerned device.name (some leases),
    unfold ◌>>=◌ in rw e refl,
    λ key. keys_concerned-In device.name key leases,
  )
