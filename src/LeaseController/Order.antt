-- ===== src/LeaseController/Order.antt =====
-- The order in which a reconcile of a lease writes: the stages, and the rules for them.
use android_device_farm.Common.{◌≡◌, ℕ, suc, ◌≤◌, ◌<◌, Option, none, some, List, [], ◌∷◌, arith}
use android_device_farm.Api.Device.{Device}
use android_device_farm.Kube.Effect.{Exec, ◌>>=◌}
use android_device_farm.Kube.Hoare.{Triple, Triple-bind, Triple-post, Triple-weaken}
use android_device_farm.Kube.Trace.{
  Event, saw_devices, sent_device_status, created_device, deleted_device, sent_lease_status,
  sent_lease, deleted_pod, Traced, OnLog, sending, sending_seeing, Triple-sending,
  Triple-sending_seeing,
}

-- The stage of a write: the victim goes, a device is created, claimed or freed, its pod goes, the
-- lease is written. A reconcile of a lease has no other write.
abbrev pub stage : Event → Option ℕ
stage (saw_devices ds) = none
stage (deleted_device d) = some 0
stage (created_device d) = some 1
stage (sent_device_status d) = some 1
stage (deleted_pod k) = some 2
stage (sent_lease_status l) = some 3
stage (sent_lease l) = some 3
stage _ = some 4

abbrev pub with_stage : Option ℕ → List ℕ → List ℕ
with_stage none ns = ns
with_stage (some n) ns = n ∷ ns

-- The stages of the writes, the latest first.
abbrev pub stages : List Event → List ℕ
stages [] = []
stages (e ∷ log) = with_stage (stage e) (stages log)

-- All below `n`, each one below the one in front of it.
abbrev pub Descends : ℕ → List ℕ → Type 0
Descends n [] = Unit
Descends n (m ∷ ms) = (m < n) × Descends m ms

Descends-up : (n k : ℕ) → n ≤ k → (ms : List ℕ) → Descends n ms → Descends k ms
Descends-up n k le [] h = tt
Descends-up n k le (m ∷ ms) (a, h) = (omega arith, h)

-- No write of stage `n` or later.
abbrev pub Before : {W : Type 0} → ℕ → Traced W → Type 0
Before n = OnLog (λ log. Descends n (stages log))

-- From before `n` the call ends before `k`, however it ends.
abbrev pub Advances : {W A : Type 0} → ℕ → ℕ → Exec (Traced W) A → Type 0
Advances n k m = Triple (Before n) m (λ _. Before k) (Before k)

Before-up : {W : Type 0} (n k : ℕ) → n ≤ k → (s : Traced W) → Before n s → Before k s
Before-up n k le s h = record { logged = Descends-up n k le (stages s.log) h.logged }

-- A write of a stage takes the log to the next.
write_stage :
    (n r : ℕ) (e : Event)
    → stage e ≡ some r
    → n ≤ r
    → (log : List Event) → Descends n (stages log)
    → Descends (suc r) (stages (e ∷ log))
write_stage n r e p le log h = rw p (omega arith, Descends-up n r le (stages log) h)

module _ {W A : Type 0} (n k j : ℕ) {m : Exec (Traced W) A} where
  pub Advances-up : k ≤ j → Advances n k m → Advances n j m
  Advances-up le t = Triple-post (λ a. Before-up k j le) (Triple-weaken (Before-up k j le) t)

  pub Advances-bind :
      {B : Type 0} {f : A → Exec (Traced W) B}
      → k ≤ j
      → Advances n k m
      → ((a : A) → Advances k j (f a))
      → Advances n j (m >>= f)
  Advances-bind le t g = Triple-bind (Triple-weaken (Before-up k j le) t) g

module _ {W A : Type 0} (n r : ℕ) (e : Event) (m : Exec W A) where
  pub Advances-sending : stage e ≡ some r → n ≤ r → Advances n (suc r) (sending e m)
  Advances-sending p le = Triple-sending e m (write_stage n r e p le)

  pub Advances-sending_seeing :
      (f : A → List Device) → stage e ≡ some r → n ≤ r → Advances n (suc r) (sending_seeing e f m)
  Advances-sending_seeing f p le =
      Triple-sending_seeing e f m (λ a. write_stage n r e p le) (write_stage n r e p le)
