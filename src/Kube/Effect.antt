-- ===== src/Kube/Effect.antt =====
-- A call that reads and writes the cluster, and may fail. What was written before an error stays
-- written, so the world comes back beside the error too.
use android_device_farm.Common.{Bool, true, false, Option, none, some}
use android_device_farm.Go.Time.{Duration}
use android_device_farm.Common.Int.{pos}

-- The errors that the program tells apart, by `apierrors.IsNotFound` and `apierrors.IsConflict`.
pub data ApiError : Type 0 where
  not_found conflict other : ApiError

-- `panicked` is a Go run-time panic.
pub data Result (A : Type 0) : Type 0 where
  ok : A → Result A
  err : ApiError → Result A
  panicked : Result A

abbrev pub Exec : Type 0 → Type 0 → Type 0
Exec W A = W → Result A × W

module _ {W A : Type 0} where
  unfoldable pub pure : A → Exec W A
  pure a w = (ok a, w)

  unfoldable pub raise : ApiError → Exec W A
  raise e w = (err e, w)

  unfoldable pub lift : Result A → Exec W A
  lift r w = (r, w)

  abbrev pub or_none : Result A × W → Result (Option A) × W
  or_none (ok a, w) = (ok (some a), w)
  or_none (err not_found, w) = (ok none, w)
  or_none (err conflict, w) = (err conflict, w)
  or_none (err other, w) = (err other, w)
  or_none (panicked, w) = (panicked, w)

  -- `err != nil` split by `apierrors.IsNotFound(err)`: `none` is the not-found branch.
  unfoldable pub optional : Exec W A → Exec W (Option A)
  optional m w = or_none (m w)

  abbrev pub or_conflict : Result A × W → Result (Option A) × W
  or_conflict (ok a, w) = (ok (some a), w)
  or_conflict (err conflict, w) = (ok none, w)
  or_conflict (err not_found, w) = (err not_found, w)
  or_conflict (err other, w) = (err other, w)
  or_conflict (panicked, w) = (panicked, w)

  -- The same by `apierrors.IsConflict(err)`.
  unfoldable pub unless_conflict : Exec W A → Exec W (Option A)
  unless_conflict m w = or_conflict (m w)

  abbrev pub or_failed : Result A × W → Result (Option A) × W
  or_failed (ok a, w) = (ok (some a), w)
  or_failed (err e, w) = (ok none, w)
  or_failed (panicked, w) = (panicked, w)

  -- `if err != nil`, whatever the error.
  unfoldable pub tried : Exec W A → Exec W (Option A)
  tried m w = or_failed (m w)

module _ {W A B : Type 0} where
  abbrev pub continue : (A → Exec W B) → Result A × W → Result B × W
  continue f (ok a, w) = f a w
  continue f (err e, w) = (err e, w)
  continue f (panicked, w) = (panicked, w)

  infixl 5 ◌>>=◌ ◌>>◌
  -- Opening this opens the other ways to build a call.
  unfoldable pub ◌>>=◌ : Exec W A → (A → Exec W B) → Exec W B
  unfolding pure raise lift optional unless_conflict tried
  ◌>>=◌ m f w = continue f (m w)

  abbrev pub ◌>>◌ : Exec W A → Exec W B → Exec W B
  m >> k = m >>= λ _. k

-- `ctrl.Result`
pub record ReconcileResult : Type 0 where
  pub requeue : Bool
  pub requeue_after : Duration

abbrev pub done : ReconcileResult
done = record { requeue = false; requeue_after = pos 0 }

abbrev pub after_duration : Duration → ReconcileResult
after_duration d = record { requeue = false; requeue_after = d }

abbrev pub again : ReconcileResult
again = record { requeue = true; requeue_after = pos 0 }
