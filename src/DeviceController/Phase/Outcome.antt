-- ===== src/DeviceController/Phase/Outcome.antt =====
-- Which phase `computePhase` gives, in terms of the containers, the pod's phase and its conditions.
use android_device_farm.Common.{
  ◌≡◌, ◌≤◌, ◌<◌, ◌^◌, ◌%◌, ◌⊎◌, inl, inr, Bool, true, false, refl, arith, List, [], ◌∷◌, In, some,
  Bool-cases, String, Option, none, ap, sym, eq_iff, ◌&&◌,
}
use android_device_farm.Api.Meta.{
  ConditionStatus, condition_true, condition_false, condition_unknown,
}
use android_device_farm.Api.Device.{DevicePhase, ready, failed, provisioning}
use android_device_farm.Kube.Objects.{
  Pod, PodPhase, PodStatus, PodCondition, PodConditionType, pod_ready, ContainerStatus,
}
use android_device_farm.DeviceController.Phase.{
  compute_phase, crash_loop_back_off, backs_off, is_ready_type, is_true, phase_of_readiness,
  phase_of_pod, crash_loop_reason, crash_loop_in-eq_empty, any_ready, is_pod_ready,
  any_crash_looping, is_crash_looping, says_ready,
}

-- A container waits in its crash loop, or has restarted three times, as a signed 32-bit number.
abbrev pub Loops : ContainerStatus → Type 0
Loops cs =
    (cs.waiting ≡ some "CrashLoopBackOff")
    ⊎ ((3 ≤ cs.restart_count % 2 ^ 32) × (cs.restart_count % 2 ^ 32 < 2 ^ 31))

abbrev pub CrashLoops : PodStatus → Type 0
CrashLoops s = (cs : ContainerStatus) × In cs s.container_statuses × Loops cs

abbrev pub HasTerminated : PodPhase → Type 0
HasTerminated p = (p ≡ PodPhase.failed) ⊎ (p ≡ PodPhase.succeeded)

-- The pod has the condition Ready, and it is true.
abbrev pub ReportsReady : PodStatus → Type 0
ReportsReady s =
    (c : PodCondition) × In c s.conditions
    × (c.condition_type ≡ pod_ready)
    × (c.status ≡ condition_true)

says_ready_complete :
    (t : PodConditionType) (b : ConditionStatus)
    → t ≡ pod_ready
    → b ≡ condition_true
    → (is_ready_type t && is_true b) ≡ true
says_ready_complete t b e h = rw (e, h) refl

says_ready_sound :
    (t : PodConditionType) (b : ConditionStatus)
    → (is_ready_type t && is_true b) ≡ true
    → (t ≡ pod_ready) × (b ≡ condition_true)
says_ready_sound pod_ready condition_true h = (refl, refl)
says_ready_sound pod_ready condition_false h = cc
says_ready_sound pod_ready condition_unknown h = cc
says_ready_sound (PodConditionType.other s) b h = cc

backing_off_complete : (w : Option String) → w ≡ some crash_loop_back_off → backs_off w ≡ true
backing_off_complete w e = rw e refl

backing_off_sound : (w : Option String) → backs_off w ≡ true → w ≡ some crash_loop_back_off
backing_off_sound none h = cc
backing_off_sound (some r) h = ap some ((eq_iff r crash_loop_back_off).0 h)

is_crash_looping_complete : (cs : ContainerStatus) → Loops cs → is_crash_looping cs ≡ true
is_crash_looping_complete cs (inl e) = rw (backing_off_complete cs.waiting e) refl
is_crash_looping_complete cs (inr h) = ground arith

is_crash_looping_sound : (cs : ContainerStatus) → is_crash_looping cs ≡ true → Loops cs
is_crash_looping_sound cs h = elim (Bool-cases (backs_off cs.waiting)) [
  | inl backing ↦ inl (backing_off_sound cs.waiting backing)
  | inr steady ↦ inr (ground arith)
]

any_ready_complete :
    (l : List PodCondition) (c : PodCondition)
    → In c l
    → c.condition_type ≡ pod_ready
    → c.status ≡ condition_true
    → any_ready l ≡ true
unfolding any_ready
any_ready_complete [] c i e h = absurd i
any_ready_complete (d ∷ rest) c (inl same) e h =
    rw (sym same, says_ready_complete c.condition_type c.status e h) refl
any_ready_complete (d ∷ rest) c (inr i) e h = elim (Bool-cases (says_ready d)) [
  | inl hit ↦ rw hit refl
  | inr miss ↦ rw miss (any_ready_complete rest c i e h)
]

any_ready_sound :
    (l : List PodCondition)
    → any_ready l ≡ true
    → (c : PodCondition) × In c l × (c.condition_type ≡ pod_ready) × (c.status ≡ condition_true)
unfolding any_ready
any_ready_sound [] h = cc
any_ready_sound (d ∷ rest) h = elim (Bool-cases (says_ready d)) [
  | inl hit ↦ let (t, b) = says_ready_sound d.condition_type d.status hit in (d, inl refl, t, b)
  | inr miss ↦ let (c, i, t, b) = any_ready_sound rest (ground arith) in (c, inr i, t, b)
]

any_crash_looping_complete :
    (l : List ContainerStatus) (cs : ContainerStatus)
    → In cs l
    → Loops cs
    → any_crash_looping l ≡ true
any_crash_looping_complete [] cs i h = absurd i
any_crash_looping_complete (d ∷ rest) cs (inl same) h =
    rw (sym same, is_crash_looping_complete cs h) refl
any_crash_looping_complete (d ∷ rest) cs (inr i) h =
    let later = any_crash_looping_complete rest cs i h in ground arith

any_crash_looping_sound :
    (l : List ContainerStatus)
    → any_crash_looping l ≡ true
    → (cs : ContainerStatus) × In cs l × Loops cs
any_crash_looping_sound [] h = cc
any_crash_looping_sound (d ∷ rest) h = elim (Bool-cases (is_crash_looping d)) [
  | inl hit ↦ (d, inl refl, is_crash_looping_sound d hit)
  | inr miss ↦ let (c, i, r) = any_crash_looping_sound rest (ground arith) in (c, inr i, r)
]

-- The phase of a pod, whichever rule applies.
pub data PhaseOf (s : PodStatus) (booted : Bool) : DevicePhase → Type 0 where
  loops : CrashLoops s → PhaseOf s booted failed
  ends : ¬ CrashLoops s → HasTerminated s.phase → PhaseOf s booted failed
  works : ¬ CrashLoops s → ¬ HasTerminated s.phase → ReportsReady s → PhaseOf s booted ready
  hangs :
      ¬ CrashLoops s
      → ¬ HasTerminated s.phase
      → ¬ ReportsReady s
      → booted ≡ true
      → PhaseOf s booted failed
  boots :
      ¬ CrashLoops s
      → ¬ HasTerminated s.phase
      → ¬ ReportsReady s
      → booted ≡ false
      → PhaseOf s booted provisioning

unready : (s : PodStatus) → any_ready s.conditions ≡ false → ¬ ReportsReady s
unready s e (c, i, t, h) = cc (any_ready_complete s.conditions c i t h)

module _ (s : PodStatus) (steady : ¬ CrashLoops s) where
  running-PhaseOf :
      (r booted : Bool)
      → any_ready s.conditions ≡ r
      → ¬ HasTerminated s.phase
      → PhaseOf s booted (phase_of_readiness r booted).0
  running-PhaseOf true booted e lives = works steady lives (any_ready_sound s.conditions e)
  running-PhaseOf false true e lives = hangs steady lives (unready s e) refl
  running-PhaseOf false false e lives = boots steady lives (unready s e) refl

  phase_of_pod-PhaseOf :
      (p : PodPhase) (r booted : Bool)
      → s.phase ≡ p
      → any_ready s.conditions ≡ r
      → PhaseOf s booted (phase_of_pod p r booted).0
  phase_of_pod-PhaseOf PodPhase.failed r booted e h = ends steady (inl e)
  phase_of_pod-PhaseOf PodPhase.succeeded r booted e h = ends steady (inr e)
  phase_of_pod-PhaseOf PodPhase.unset r booted e h =
      running-PhaseOf r booted h λ t. elim t [ inl f ↦ cc (e, f) | inr f ↦ cc (e, f) ]
  phase_of_pod-PhaseOf PodPhase.pending r booted e h =
      running-PhaseOf r booted h λ t. elim t [ inl f ↦ cc (e, f) | inr f ↦ cc (e, f) ]
  phase_of_pod-PhaseOf PodPhase.running r booted e h =
      running-PhaseOf r booted h λ t. elim t [ inl f ↦ cc (e, f) | inr f ↦ cc (e, f) ]
  phase_of_pod-PhaseOf PodPhase.unknown r booted e h =
      running-PhaseOf r booted h λ t. elim t [ inl f ↦ cc (e, f) | inr f ↦ cc (e, f) ]

module _ (pod : Pod) (booted : Bool) where
  -- The phase, whichever it is: Failed while a container waits with the reason CrashLoopBackOff or
  -- has restarted three times or more, as a signed 32-bit number, and once the pod has failed or
  -- succeeded; else Ready while a condition of type Ready is true; else Failed for a device that
  -- had booted, and Provisioning for one that had not.
  pub compute_phase-PhaseOf : PhaseOf pod.status booted (compute_phase pod booted).0
  unfolding compute_phase crash_loop_reason is_pod_ready
  compute_phase-PhaseOf = elim (Bool-cases (any_crash_looping pod.status.container_statuses)) [
    | inl hit ↦
        rw (crash_loop_in-eq_empty pod.status.container_statuses, hit)
          (loops (any_crash_looping_sound pod.status.container_statuses hit))
    | inr miss ↦
        rw (crash_loop_in-eq_empty pod.status.container_statuses, miss)
          (phase_of_pod-PhaseOf pod.status
            (λ c. cc (any_crash_looping_complete pod.status.container_statuses c.0 c.1 c.2))
            pod.status.phase (any_ready pod.status.conditions) booted refl refl)
  ]
