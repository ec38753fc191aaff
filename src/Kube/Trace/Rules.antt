-- ===== src/Kube/Trace/Rules.antt =====
-- Rules for calls of the environment that logs: an invariant of the log, or what holds of the log
-- before and after.
use android_device_farm.Common.{◌≡◌, refl, Bool, true, List, ◌∷◌}
use android_device_farm.Api.Device.{Device}
use android_device_farm.Kube.Effect.{Result, ok, err, panicked, Exec}
use android_device_farm.Kube.Hoare.{Keeps, Triple, Outcome}
use android_device_farm.Kube.Trace.Events.{
  Event, saw_devices, Traced, silent_end, silent, sending, seen_end, seeing, sending_seeing,
}

-- A predicate on logs, as an invariant of the traced world.
pub record OnLog {W : Type 0} (I : List Event → Type 0) (s : Traced W) : Type 0 where
  pub logged : I s.log

-- Events of a kind leave the predicate as it is.
abbrev pub Closed : (Event → Bool) → (List Event → Type 0) → Type 0
Closed P I = (e : Event) (log : List Event) → P e ≡ true → I log → I (e ∷ log)

module _ {W A : Type 0} (I : List Event → Type 0) where
  seen_end-Keeps :
      (f : A → List Device) (log : List Event) (r : Result A × W)
      → ((ds : List Device) → I log → I (saw_devices ds ∷ log))
      → I log
      → I (seen_end f log r).1.log
  seen_end-Keeps f log (ok a, w) h k = h (f a) k
  seen_end-Keeps f log (err e, w) h k = k
  seen_end-Keeps f log (panicked, w) h k = k

module _ {W A : Type 0} {I : List Event → Type 0} where
  pub Keeps-silent : (m : Exec W A) → Keeps (OnLog I) (silent m)
  unfolding silent
  Keeps-silent m = record { run = λ s h. record { logged = h.logged } }

  pub Keeps-sending :
      (e : Event) (m : Exec W A)
      → ((log : List Event) → I log → I (e ∷ log))
      → Keeps (OnLog I) (sending e m)
  unfolding sending
  Keeps-sending e m k = record { run = λ s h. record { logged = k s.log h.logged } }

  pub Keeps-seeing :
      (f : A → List Device) (m : Exec W A)
      → ((ds : List Device) (log : List Event) → I log → I (saw_devices ds ∷ log))
      → Keeps (OnLog I) (seeing f m)
  unfolding seeing
  Keeps-seeing f m k = record {
    run =
        λ s h. record { logged = seen_end-Keeps I f s.log (m s.world) (λ ds. k ds s.log) h.logged };
  }

module _ {W A : Type 0} (I : List Event → Type 0) (J : A → List Event → Type 0)
    (E : List Event → Type 0) where
  seen_end-Outcome :
      (f : A → List Device) (log : List Event) (r : Result A × W)
      → ((a : A) → r.0 ≡ ok a → I log → J a (saw_devices (f a) ∷ log))
      → (I log → E log)
      → I log
      → Outcome (OnLog E) (λ a. OnLog (J a)) (seen_end f log r)
  seen_end-Outcome f log (ok a, w) j e h = record { logged = j a refl h }
  seen_end-Outcome f log (err _, w) j e h = record { logged = e h }
  seen_end-Outcome f log (panicked, w) j e h = record { logged = e h }

module _ {W A : Type 0} {I : List Event → Type 0} {J : A → List Event → Type 0}
    {E : List Event → Type 0} where
  pub Triple-seeing :
      (f : A → List Device) (m : Exec W A)
      → ((a : A) (log : List Event) → I log → J a (saw_devices (f a) ∷ log))
      → ((log : List Event) → I log → E log)
      → Triple (OnLog I) (seeing f m) (λ a. OnLog (J a)) (OnLog E)
  unfolding seeing
  Triple-seeing f m j e = record {
    run = λ s h. seen_end-Outcome I J E f s.log (m s.world) (λ a _. j a s.log) (e s.log) h.logged;
  }

  pub Triple-sending_seeing :
      (event : Event) (f : A → List Device) (m : Exec W A)
      → ((a : A) (log : List Event) → I log → J a (saw_devices (f a) ∷ event ∷ log))
      → ((log : List Event) → I log → E (event ∷ log))
      → Triple (OnLog I) (sending_seeing event f m) (λ a. OnLog (J a)) (OnLog E)
  unfolding sending_seeing
  Triple-sending_seeing event f m j e = record {
    run = λ s h.
        seen_end-Outcome (λ log. I s.log) J E f (event ∷ s.log) (m s.world) (λ a _. j a s.log)
          (e s.log) h.logged;
  }

  -- The same with what is known of the object that is handed back.
  pub Triple-sending_seeing_told :
      (event : Event) (f : A → List Device) (m : Exec W A)
      → ((w : W) (a : A)
          → (m w).0 ≡ ok a
          → (log : List Event) → I log
          → J a (saw_devices (f a) ∷ event ∷ log))
      → ((log : List Event) → I log → E (event ∷ log))
      → Triple (OnLog I) (sending_seeing event f m) (λ a. OnLog (J a)) (OnLog E)
  unfolding sending_seeing
  Triple-sending_seeing_told event f m j e = record {
    run = λ s h.
        seen_end-Outcome (λ log. I s.log) J E f (event ∷ s.log) (m s.world)
          (λ a q. j s.world a q s.log) (e s.log) h.logged;
  }

module _ {W A : Type 0} (I : List Event → Type 0) (Q : A → Type 0) where
  silent_end-Outcome :
      (log : List Event) (r : Result A × W)
      → I log
      → ((a : A) → r.0 ≡ ok a → Q a)
      → Outcome (OnLog I) (λ a s. OnLog I s × Q a) (silent_end log r)
  silent_end-Outcome log (ok a, w) h q = (record { logged = h }, q a refl)
  silent_end-Outcome log (err _, w) h q = record { logged = h }
  silent_end-Outcome log (panicked, w) h q = record { logged = h }

  known_end-Outcome :
      (f : A → List Device) (log : List Event) (r : Result A × W)
      → ((ds : List Device) → I log → I (saw_devices ds ∷ log))
      → I log
      → ((a : A) → r.0 ≡ ok a → Q a)
      → Outcome (OnLog I) (λ a s. OnLog I s × Q a) (seen_end f log r)
  known_end-Outcome f log (ok a, w) k h q = (record { logged = k (f a) h }, q a refl)
  known_end-Outcome f log (err _, w) k h q = record { logged = h }
  known_end-Outcome f log (panicked, w) k h q = record { logged = h }

  -- A read with what is known of its result.
  pub Triple-silent :
      (m : Exec W A)
      → ((w : W) (a : A) → (m w).0 ≡ ok a → Q a)
      → Triple (OnLog I) (silent m) (λ a s. OnLog I s × Q a) (OnLog I)
  unfolding silent
  Triple-silent m q = record {
    run = λ s h. silent_end-Outcome s.log (m s.world) h.logged (q s.world);
  }

module _ {W A : Type 0} (J : List Event → Type 0) where
  logged_end-Outcome :
      (log : List Event) (r : Result A × W)
      → J log
      → Outcome (OnLog J) (λ _. OnLog J) (silent_end log r)
  logged_end-Outcome log (ok a, w) h = record { logged = h }
  logged_end-Outcome log (err _, w) h = record { logged = h }
  logged_end-Outcome log (panicked, w) h = record { logged = h }

module _ {W A : Type 0} {I J : List Event → Type 0} where
  pub Triple-sending :
      (e : Event) (m : Exec W A)
      → ((log : List Event) → I log → J (e ∷ log))
      → Triple (OnLog I) (sending e m) (λ _. OnLog J) (OnLog J)
  unfolding sending
  Triple-sending e m j = record {
    run = λ s h. logged_end-Outcome J (e ∷ s.log) (m s.world) (j s.log h.logged);
  }

module _ {W A : Type 0} {I : List Event → Type 0} {Q : A → Type 0} where
  -- A write with what is known of the object that the server hands back.
  pub Triple-sending_known :
      (e : Event) (m : Exec W A)
      → ((log : List Event) → I log → I (e ∷ log))
      → ((w : W) (a : A) → (m w).0 ≡ ok a → Q a)
      → Triple (OnLog I) (sending e m) (λ a s. OnLog I s × Q a) (OnLog I)
  unfolding sending
  Triple-sending_known e m k q = record {
    run = λ s h. silent_end-Outcome I Q (e ∷ s.log) (m s.world) (k s.log h.logged) (q s.world);
  }

  -- The same of devices that are handed back, for an invariant that reads keep.
  pub Triple-seeing_known :
      (f : A → List Device) (m : Exec W A)
      → ((ds : List Device) (log : List Event) → I log → I (saw_devices ds ∷ log))
      → ((w : W) (a : A) → (m w).0 ≡ ok a → Q a)
      → Triple (OnLog I) (seeing f m) (λ a s. OnLog I s × Q a) (OnLog I)
  unfolding seeing
  Triple-seeing_known f m k q = record {
    run = λ s h. known_end-Outcome I Q f s.log (m s.world) (λ ds. k ds s.log) h.logged (q s.world);
  }

  pub Triple-sending_seeing_known :
      (e : Event) (f : A → List Device) (m : Exec W A)
      → ((log : List Event) → I log → I (e ∷ log))
      → ((ds : List Device) (log : List Event) → I log → I (saw_devices ds ∷ log))
      → ((w : W) (a : A) → (m w).0 ≡ ok a → Q a)
      → Triple (OnLog I) (sending_seeing e f m) (λ a s. OnLog I s × Q a) (OnLog I)
  unfolding sending_seeing
  Triple-sending_seeing_known e f m i k q = record {
    run = λ s h.
        known_end-Outcome I Q f (e ∷ s.log) (m s.world) (λ ds. k ds (e ∷ s.log)) (i s.log h.logged)
          (q s.world);
  }
