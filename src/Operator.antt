-- ===== src/Operator.antt =====
-- operator/cmd/main.go and the `SetupWithManager` of the three controllers: what the operator asks of
-- the manager of controller-runtime, and how the program ends.
pub mod Watches
pub mod Options
pub mod Steps
use android_device_farm.Common.{ℕ, String, Option, none, some}
use android_device_farm.Kube.Effect.{ApiError, Result, ok, err, panicked, Exec}
use android_device_farm.Kube.Client.{Env}
use android_device_farm.Operator.Options.{Flags, ManagerOptions, manager_options}
use android_device_farm.Operator.Watches.{
  Registration, device_registration, pool_registration, lease_registration,
}

-- The calls of `main` that may fail, with what they are given. `load_config` is
-- `ctrl.GetConfigOrDie()`, and `start` waits until the manager stops.
pub data Call (W : Type 0) : Type 0 where
  load_config : Call W
  new_manager : ManagerOptions → Call W
  register : Registration W → Call W
  add_healthz_check add_readyz_check : String → Call W
  start : Call W

-- The library behind the calls, on a state of its own.
abbrev pub Manager : Type 0 → Type 0 → Type 0
Manager W S = Call W → Exec S Unit

-- How `main` ends: it returns, status 0; `os.Exit(1)` behind a message, with the name of the
-- controller where the message has one; a Go panic.
pub data Exit : Type 0 where
  returned : Exit
  exited : String → Option String → ApiError → Exit
  crashed : Exit

abbrev pub status : Exit → ℕ
status returned = 0
status (exited message controller e) = 1
status crashed = 2

module _ {S : Type 0} where
  -- `if err := ...; err != nil { setupLog.Error(err, message); os.Exit(1) }`, and the rest.
  abbrev pub or_exit : String → Option String → (S → Exit × S) → Result Unit × S → Exit × S
  or_exit message controller rest (ok a, s) = rest s
  or_exit message controller rest (err e, s) = (exited message controller e, s)
  or_exit message controller rest (panicked, s) = (crashed, s)

module _ {W S : Type 0} (env : Env W) (m : Manager W S) where
  -- From `setupLog.Info("Starting manager")` on.
  run_manager : S → Exit × S
  run_manager s = or_exit "Failed to run manager" none (λ s'. (returned, s')) (m start s)

  add_checks : S → Exit × S
  unfolding run_manager
  add_checks s =
      or_exit "Failed to set up health check" none
        (λ s'.
          or_exit "Failed to set up ready check" none run_manager
            (m (add_readyz_check "readyz") s'))
        (m (add_healthz_check "healthz") s)

  add_controllers : S → Exit × S
  unfolding add_checks
  add_controllers s =
      or_exit "Failed to create controller" (some "devicepool")
        (λ s1.
          or_exit "Failed to create controller" (some "device")
            (λ s2.
              or_exit "Failed to create controller" (some "devicelease") add_checks
                (m (register (lease_registration env)) s2))
            (m (register (device_registration env)) s1))
        (m (register (pool_registration env)) s)

  -- `main` behind `flag.Parse`.
  unfoldable pub main : Flags → S → Exit × S
  unfolding add_controllers
  main f s =
      or_exit "unable to get kubeconfig" none
        (λ s1.
          or_exit "Failed to start manager" none add_controllers
            (m (new_manager (manager_options f)) s1))
        (m load_config s)
