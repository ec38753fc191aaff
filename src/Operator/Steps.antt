-- ===== src/Operator/Steps.antt =====
-- The calls that `main` of operator/cmd/main.go makes, in order, and the first that fails.
use android_device_farm.Common.{
  ◌≡◌, refl, sym, subst, String, Option, none, some, List, [], ◌∷◌, ◌++◌, append_assoc-cons,
}
use android_device_farm.Kube.Effect.{ApiError, Result, ok, err, panicked}
use android_device_farm.Kube.Client.{Env}
use android_device_farm.Operator.Options.{Flags, manager_options}
use android_device_farm.Operator.Watches.{
  device_registration, pool_registration, lease_registration,
}
use android_device_farm.Operator.{
  Call, load_config, new_manager, register, add_healthz_check, add_readyz_check, start, Manager,
  Exit, returned, exited, crashed, or_exit, run_manager, add_checks, add_controllers, main,
}

-- The calls with their answers.
abbrev pub Story : Type 0 → Type 0
Story W = List (Call W × Result Unit)

module _ {W : Type 0} where
  -- The message that `main` logs when the call fails.
  abbrev pub message : Call W → String
  message load_config = "unable to get kubeconfig"
  message (new_manager opts) = "Failed to start manager"
  message (register r) = "Failed to create controller"
  message (add_healthz_check name) = "Failed to set up health check"
  message (add_readyz_check name) = "Failed to set up ready check"
  message start = "Failed to run manager"

  abbrev pub subject : Call W → Option String
  subject (register r) = some (r.name)
  subject _ = none

  -- A run of planned calls: each is made once the one before has succeeded, and the first failure
  -- is the last call and decides how the program ends.
  pub data Run : List (Call W) → Story W → Exit → Type 0 where
    all_made : Run [] [] returned
    failed_at :
        (c : Call W) (later : List (Call W)) (e : ApiError)
        → Run (c ∷ later) ((c, err e) ∷ []) (exited (message c) (subject c) e)
    panicked_at :
        (c : Call W) (later : List (Call W)) → Run (c ∷ later) ((c, panicked) ∷ []) crashed
    then_next :
        (c : Call W) (later : List (Call W)) (story : Story W) (exit : Exit)
        → Run later story exit
        → Run (c ∷ later) ((c, ok tt) ∷ story) exit

abbrev pub planned : {W : Type 0} → Env W → Flags → List (Call W)
planned env f =
    load_config
    ∷ new_manager (manager_options f)
    ∷ register (pool_registration env)
    ∷ register (device_registration env)
    ∷ register (lease_registration env)
    ∷ add_healthz_check "healthz"
    ∷ add_readyz_check "readyz"
    ∷ start
    ∷ []

module _ {W S : Type 0} (m : Manager W S) where
  abbrev noted : Call W → Story W → Result Unit × S → Result Unit × (S × Story W)
  noted c story (r, s) = (r, (s, story ++ (c, r) ∷ []))

  -- The manager with a record of the calls and their answers.
  abbrev pub noting : Manager W (S × Story W)
  noting c (s, story) = noted c story (m c s)

  -- Planned calls, one by one.
  abbrev perform : List (Call W) → S × Story W → Exit × (S × Story W)
  perform [] s = (returned, s)
  perform (c ∷ later) s = or_exit (message c) (subject c) (perform later) (noting c s)

  abbrev Told : List (Call W) → Story W → Exit × (S × Story W) → Type 0
  Told plan before (exit, (s, story)) =
      (made : Story W) × ((story ≡ before ++ made) × Run plan made exit)

  Told-later :
      (c : Call W) (later : List (Call W)) (before : Story W) (r : Exit × (S × Story W))
      → Told later (before ++ (c, ok tt) ∷ []) r
      → Told (c ∷ later) before r
  Told-later c later before (exit, (s, story)) (made, (e, run)) = (
    (c, ok tt) ∷ made,
    (
      subst (λ l. story ≡ l) (append_assoc-cons before made (c, ok tt)) e,
      then_next c later made exit run,
    ),
  )

  or_exit-Told :
      (c : Call W) (later : List (Call W)) (before : Story W)
      (rest : S × Story W → Exit × (S × Story W))
      → ((s : S) (story : Story W) → Told later story (rest (s, story)))
      → (r : Result Unit × S)
      → Told (c ∷ later) before (or_exit (message c) (subject c) rest (noted c before r))
  or_exit-Told c later before rest told (ok u, s) =
      Told-later c later before (rest (s, before ++ (c, ok tt) ∷ [])) (told s _)
  or_exit-Told c later before rest told (err e, s) = ((c, err e) ∷ [], (refl, failed_at c later e))
  or_exit-Told c later before rest told (panicked, s) =
      ((c, panicked) ∷ [], (refl, panicked_at c later))

  append_nil : (story : Story W) → story ≡ story ++ []
  append_nil [] = refl
  append_nil (x ∷ story) = rw (sym (append_nil story)) refl

  perform-Told :
      (plan : List (Call W)) (s : S) (story : Story W) → Told plan story (perform plan (s, story))
  perform-Told [] s story = ([], (append_nil story, all_made))
  perform-Told (c ∷ later) s story =
      or_exit-Told c later story (perform later) (perform-Told later) (m c s)

module _ {W S : Type 0} (env : Env W) (m : Manager W S) where
  main-perform :
      (f : Flags) (s : S × Story W) → main env (noting m) f s ≡ perform m (planned env f) s
  unfolding main add_controllers add_checks run_manager
  main-perform f s = refl

  -- The program makes at most eight calls, in the order of `planned`: the kubeconfig, the manager,
  -- the pool, device and lease controllers, the health and ready checks, the start. It returns only
  -- when all have succeeded; the first that fails is the last call, and it exits with the message of
  -- that call.
  pub main-Run :
      (f : Flags) (s : S)
      → let (exit, (_, story)) = main env (noting m) f (s, []) in Run (planned env f) story exit
  main-Run f s = rw (main-perform f (s, [])) (
      let (made, (e, run)) = perform-Told m (planned env f) s [] in
      subst (λ l. Run (planned env f) l (perform m (planned env f) (s, [])).0) (sym e) run)
