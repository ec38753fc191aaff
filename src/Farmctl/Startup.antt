-- ===== src/Farmctl/Startup.antt =====
-- `main` and `newClient` of client/main.go: from the command line to a command on a client.
use android_device_farm.Common.{
  ◌≡◌, refl, ◌≢◌, arith, String, Bool, true, false, ◌&&◌, ◌||◌, not, List, [], ◌∷◌, str_eq,
  Bool-cases, inl, inr,
}
use android_device_farm.Kube.Effect.{Result, ok, err, panicked, Exec}
use android_device_farm.Kube.Client.{Env}
use android_device_farm.Farmctl.{
  Flags, default_flags, Exit, success, usage, crash, status, Poll, or_fatal, required, acquire,
  heartbeat, release, run,
}

-- What `flag` makes of the arguments behind the command: the flags; `-h`, on which it exits with
-- status 0; or an error, on which it prints its usage and exits with status 2.
pub data Parsed : Type 0 where
  parsed : Flags → Parsed
  helped rejected : Parsed

-- The libraries that `newClient` calls: the two `AddToScheme`, `ctrl.GetConfig` and `client.New`.
pub record Connector (W Config : Type 0) : Type 0 where
  pub add_client_go_scheme : Exec W Unit
  pub add_farm_scheme : Exec W Unit
  pub get_config : Exec W Config
  pub new : Config → Exec W (Env W)

module _ {W : Type 0} where
  -- `utilruntime.Must`, which panics on an error, and the rest.
  abbrev pub must : (W → Exit × W) → Result Unit × W → Exit × W
  must rest (ok a, w) = rest w
  must rest (err e, w) = (crash [], w)
  must rest (panicked, w) = (crash [], w)

module _ {W Config : Type 0} (connect : Connector W Config) (poll : Poll W)
    (parse : String → Flags → List String → Parsed) where
  unfoldable pub new_client : (Env W → W → Exit × W) → W → Exit × W
  new_client rest w =
      must
        (λ w1.
          must
            (λ w2.
              or_fatal [] "kubeconfig" (λ cfg w3. or_fatal [] "client" rest (connect.new cfg w3))
                (connect.get_config w2))
            (connect.add_farm_scheme w1))
        (connect.add_client_go_scheme w)

  abbrev on_client : String → Parsed → W → Exit × W
  on_client cmd (parsed f) w = new_client (λ env. run env poll cmd f) w
  on_client cmd helped w = (success [], w)
  on_client cmd rejected w = (usage, w)

  -- The arguments start with the program's name; `requester` is the default of its flag.
  unfoldable pub main : String → List String → W → Exit × W
  unfolding new_client
  main requester [] w = (usage, w)
  main requester (program ∷ []) w = (usage, w)
  main requester (program ∷ cmd ∷ args) w =
      on_client cmd (parse cmd (default_flags requester) args) w

-- A command of the usage text, with the flag that it cannot do without.
abbrev pub is_complete : String → Flags → Bool
is_complete cmd f =
    (str_eq cmd "acquire" && not (str_eq f.class ""))
    || ((str_eq cmd "heartbeat" || str_eq cmd "release") && not (str_eq f.name ""))

module _ {W : Type 0} (env : Env W) (poll : Poll W) where
  -- How a refused command ends.
  abbrev Refuses : Exit × W → W → Type 0
  Refuses (exit, w') w = (w' ≡ w) × (status exit ≢ 0)

  required-Refuses :
      (value message : String) (rest : W → Exit × W) (w : W)
      → str_eq value "" ≡ true
      → Refuses (required env poll value message rest w) w
  required-Refuses value message rest w empty = rw empty (refl, λ e. omega (arith, e))

  -- An unknown command, an `acquire` without a class, and a `heartbeat` or a `release` without a name
  -- end with a status that is not 0 and without a call of the API server.
  pub run-rejects :
      (cmd : String) (f : Flags) (w : W)
      → is_complete cmd f ≡ false
      → let (exit, w') = run env poll cmd f w in (w' ≡ w) × (status exit ≢ 0)
  unfolding run
  run-rejects cmd f w h = elim (Bool-cases (str_eq cmd "acquire")) [
    | inl a ↦ rw a (required-Refuses f.class _ (acquire env poll f) w (ground (arith, a)))
    | inr a ↦ elim (Bool-cases (str_eq cmd "heartbeat")) [
      | inl b ↦
          rw (a, b) (required-Refuses f.name _ (heartbeat env poll f) w (ground (arith, a, b)))
      | inr b ↦ elim (Bool-cases (str_eq cmd "release")) [
        | inl c ↦
            rw (a, b, c)
              (required-Refuses f.name _ (release env poll f) w (ground (arith, a, b, c)))
        | inr c ↦ rw (a, b, c) (refl, λ e. omega (arith, e))
      ]
    ]
  ]
