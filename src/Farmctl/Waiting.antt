-- ===== src/Farmctl/Waiting.antt =====
-- What `farmctl acquire` waits for, and `farmctl release` on a lease that is gone.
use android_device_farm.Common.{
  ℕ, ◌≡◌, refl, ap, ◌⊎◌, inl, inr, Bool, true, Option, some, [], ◌∷◌, ◌++◌, not, if◌then◌else◌,
  ◌<>◌,
}
use android_device_farm.Go.Time.{second}
use android_device_farm.Api.Meta.{ObjectKey, key_of}
use android_device_farm.Api.DeviceLease.{DeviceLease, LeasePhase, bound}
use android_device_farm.Kube.Effect.{
  Result, ok, err, panicked, not_found, Exec, pure, raise, optional, continue, ◌>>=◌,
}
use android_device_farm.Kube.Client.{Env}
use android_device_farm.Farmctl.{
  Flags, Exit, success, fatal, usage, crash, Poll, look, bound_yet, wait_bound, acquire, release,
  or_fatal, qualified, new_lease,
}

-- What a poll gives back, some look at the condition gave.
abbrev pub PollsTruly : {W : Type 0} → Poll W → Type 0
PollsTruly {W} poll =
    (interval timeout : ℕ) (now : Bool) (condition : Exec W (Option DeviceLease)) (w : W)
    (lease : DeviceLease)
    → (poll interval timeout now condition w).0 ≡ ok lease
    → (v : W) × (condition v).0 ≡ ok (some lease)

-- What `acquire --wait` has done and printed when it ends: the server created the lease of the flags,
-- later showed the lease of its key in the phase Bound, and the lines name the two.
abbrev pub ToldBound : {W : Type 0} → Env W → Flags → Exit × W → Type 0
ToldBound {W} env f (success lines, w) =
    (created : DeviceLease) × (lease : DeviceLease) × (v : W) × (v' : W) × ((env.create_lease
        (new_lease f) v).0
      ≡ ok created)
    × ((env.get_lease (key_of created.metadata) v').0 ≡ ok lease)
    × (lease.status.phase ≡ bound)
    × (lines
        ≡ ("created lease " <> qualified created)
          ∷ ("bound: device=" <> lease.status.device_ref <> " adb=" <> lease.status.adb_endpoint)
          ∷ [])
ToldBound env f (fatal lines message e, w) = Unit
ToldBound env f (usage, w) = ⊥
ToldBound env f (crash lines, w) = Unit

module _ {W : Type 0} (env : Env W) (poll : Poll W) where
  -- The lease that `bound_yet` lets through is the one that was read, and is Bound.
  bound_yet-bound :
      (l : DeviceLease) (p : LeasePhase) (lease : DeviceLease) (w : W)
      → l.status.phase ≡ p
      → (bound_yet l p w).0 ≡ ok (some lease)
      → (l ≡ lease) × (lease.status.phase ≡ bound)
  unfolding pure raise
  bound_yet-bound l LeasePhase.bound lease w e h = let same : l ≡ lease = cc in (same, cc)
  bound_yet-bound l LeasePhase.failed lease w e h = cc
  bound_yet-bound l LeasePhase.unset lease w e h = cc
  bound_yet-bound l LeasePhase.pending lease w e h = cc
  bound_yet-bound l LeasePhase.released lease w e h = cc
  bound_yet-bound l LeasePhase.expired lease w e h = cc

  look_end-bound :
      (r : Result DeviceLease × W) (lease : DeviceLease)
      → (continue (λ l. bound_yet l l.status.phase) r).0 ≡ ok (some lease)
      → (r.0 ≡ ok lease) × (lease.status.phase ≡ bound)
  look_end-bound (ok l, w) lease e =
      let (same, is_bound) = bound_yet-bound l l.status.phase lease w refl e in
      (ap ok same, is_bound)
  look_end-bound (err e', w) lease e = cc
  look_end-bound (panicked, w) lease e = cc

  -- The server showed the lease of the key, and it is Bound.
  abbrev Shown : ObjectKey → DeviceLease → Type 0
  Shown key lease = (v : W) × ((env.get_lease key v).0 ≡ ok lease) × (lease.status.phase ≡ bound)

  look-Shown :
      (key : ObjectKey) (w : W) (lease : DeviceLease)
      → (look env poll key w).0 ≡ ok (some lease)
      → Shown key lease
  unfolding look ◌>>=◌
  look-Shown key w lease e =
      let (got, is_bound) = look_end-bound (env.get_lease key w) lease e in (w, got, is_bound)

  module _ (truly : PollsTruly poll) (f : Flags) where
    poll_end-ToldBound :
        (created : DeviceLease) (v : W) (r : Result DeviceLease × W)
        → (env.create_lease (new_lease f) v).0 ≡ ok created
        → ((lease : DeviceLease) → r.0 ≡ ok lease → Shown (key_of created.metadata) lease)
        → ToldBound env f (
            or_fatal
              (("created lease " <> qualified created) ∷ [])
              "waiting for bind"
              (λ lease w'. (
                success (
                    (("created lease " <> qualified created) ∷ [])
                    ++ ("bound: device=" <> lease.status.device_ref <> " adb="
                        <> lease.status.adb_endpoint)
                      ∷ []),
                w',
              ))
              r)
    poll_end-ToldBound created v (ok lease, w) made h =
        let (v', got, is_bound) = h lease refl in (created, lease, v, v', made, got, is_bound, refl)
    poll_end-ToldBound created v (err e, w) made h = tt
    poll_end-ToldBound created v (panicked, w) made h = tt

    polled-Shown :
        (created : DeviceLease) (w : W) (lease : DeviceLease)
        → (poll second f.timeout true (look env poll (key_of created.metadata)) w).0 ≡ ok lease
        → Shown (key_of created.metadata) lease
    polled-Shown created w lease e =
        let (v, h) =
          truly second f.timeout true (look env poll (key_of created.metadata)) w lease e in
        look-Shown (key_of created.metadata) v lease h

    create_end-ToldBound :
        (v : W) (r : Result DeviceLease × W)
        → (env.create_lease (new_lease f) v).0 ≡ r.0
        → f.wait ≡ true
        → ToldBound env f (
            or_fatal [] "create lease"
              (λ created w'.
                let lines = ("created lease " <> qualified created) ∷ [] in
                if not f.wait then (success lines, w') else wait_bound env poll f lines created w')
              r)
    unfolding wait_bound new_lease
    create_end-ToldBound v (ok created, w) made h = rw h (
        poll_end-ToldBound created v
          (poll second f.timeout true (look env poll (key_of created.metadata)) w) made
          (polled-Shown created w))
    create_end-ToldBound v (err e, w) made h = tt
    create_end-ToldBound v (panicked, w) made h = tt

    -- `acquire` with `--wait`, where a poll returns only what its condition gave: when a run ends
    -- with success, the server has created the lease that the flags ask for, and has shown the
    -- lease of that one's key in the phase Bound; the run prints the lease that was created, and
    -- the device and the endpoint of the lease that was shown.
    pub acquire-ToldBound : (w : W) → f.wait ≡ true → ToldBound env f (acquire env poll f w)
    unfolding acquire
    acquire-ToldBound w h = create_end-ToldBound w (env.create_lease (new_lease f) w) refl h

  -- `release` succeeds alike when the lease was deleted and when it was gone already.
  pub release-gone :
      (f : Flags) (w w' : W)
      → (env.delete_lease (record { namespace = f.namespace; name = f.name }) w ≡ (ok tt, w'))
        ⊎ (env.delete_lease (record { namespace = f.namespace; name = f.name }) w
            ≡ (err not_found, w'))
      → release env poll f w ≡ (success (("released " <> f.namespace <> "/" <> f.name) ∷ []), w')
  unfolding release
  release-gone f w w' (inl e) = unfold optional in rw e refl
  release-gone f w w' (inr e) = unfold optional in rw e refl
