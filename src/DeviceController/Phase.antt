-- ===== src/DeviceController/Phase.antt =====
-- `computePhase` and its tests on a pod, of device_controller.go.
pub mod Outcome
use android_device_farm.Common.{
  ℕ, String, ◌≡◌, refl, Bool, true, false, Option, none, some, List, [], ◌∷◌, str_eq, ◌<>◌,
  if◌then◌else◌, ◌&&◌, ◌||◌, not, append-ne_empty, Bool-cases, inl, inr,
}
use android_device_farm.Go.Int32.{lt32, signed32}
use android_device_farm.Go.Strconv.{itoa}
use android_device_farm.Api.Meta.{ConditionStatus, condition_true}
use android_device_farm.Api.Device.{DevicePhase, provisioning, ready, failed}
use android_device_farm.Kube.Objects.{
  Pod, PodPhase, PodCondition, PodConditionType, pod_ready, ContainerStatus,
}

abbrev pub crash_loop_back_off : String
crash_loop_back_off = "CrashLoopBackOff"

abbrev pub crash_loop_restart_threshold : ℕ
crash_loop_restart_threshold = 3

-- `cs.State.Waiting != nil && cs.State.Waiting.Reason == crashLoopBackOff`
abbrev pub backs_off : Option String → Bool
backs_off none = false
backs_off (some reason) = str_eq reason crash_loop_back_off

abbrev pub is_backing_off : ContainerStatus → Bool
is_backing_off cs = backs_off cs.waiting

-- `cs.RestartCount >= crashLoopRestartThreshold`
abbrev pub restarted_often : ContainerStatus → Bool
restarted_often cs = not (lt32 cs.restart_count crash_loop_restart_threshold)

looping_message : String → String
looping_message name = "container " <> name <> " is crash-looping"

restart_message : String → ℕ → String
restart_message name count =
    "container " <> name <> " restarted " <> itoa (signed32 count) <> " times"

-- The loop, and its final `return ""`.
pub crash_loop_in : List ContainerStatus → String
crash_loop_in [] = ""
crash_loop_in (cs ∷ rest) =
    let later = crash_loop_in rest in
    if is_backing_off cs
    then looping_message cs.name
    else if restarted_often cs
    then restart_message cs.name cs.restart_count
    else later

unfoldable pub crash_loop_reason : Pod → String
unfolding crash_loop_in looping_message restart_message
crash_loop_reason pod = crash_loop_in pod.status.container_statuses

abbrev is_true : ConditionStatus → Bool
is_true condition_true = true
is_true _ = false

abbrev is_ready_type : PodConditionType → Bool
is_ready_type pod_ready = true
is_ready_type _ = false

-- `c.Type == corev1.PodReady && c.Status == corev1.ConditionTrue`
abbrev pub says_ready : PodCondition → Bool
says_ready c = is_ready_type c.condition_type && is_true c.status

pub any_ready : List PodCondition → Bool
any_ready [] = false
any_ready (c ∷ rest) = let later = any_ready rest in if says_ready c then true else later

unfoldable pub is_pod_ready : Pod → Bool
unfolding any_ready
is_pod_ready pod = any_ready pod.status.conditions

-- The part of `computePhase` below the switch on the pod's phase.
abbrev pub phase_of_readiness : Bool → Bool → DevicePhase × String × String
phase_of_readiness true booted = (ready, "BootCompleted", "emulator booted and ready")
phase_of_readiness false true = (failed, "Wedged", "emulator became unresponsive after boot")
phase_of_readiness false false = (provisioning, "Provisioning", "waiting for emulator to boot")

abbrev pub phase_of_pod : PodPhase → Bool → Bool → DevicePhase × String × String
phase_of_pod PodPhase.failed is_ready booted = (failed, "PodFailed", "emulator pod failed")
phase_of_pod PodPhase.succeeded is_ready booted =
    (failed, "PodExited", "emulator pod exited unexpectedly")
phase_of_pod _ is_ready booted = phase_of_readiness is_ready booted

unfoldable pub compute_phase : Pod → Bool → DevicePhase × String × String
compute_phase pod booted =
    let reason = crash_loop_reason pod in
    if not (str_eq reason "")
    then (failed, crash_loop_back_off, reason)
    else phase_of_pod pod.status.phase (is_pod_ready pod) booted

-- A container that `crashLoopReason` reports.
abbrev pub is_crash_looping : ContainerStatus → Bool
is_crash_looping cs = is_backing_off cs || restarted_often cs

abbrev pub any_crash_looping : List ContainerStatus → Bool
any_crash_looping [] = false
any_crash_looping (cs ∷ rest) = is_crash_looping cs || any_crash_looping rest

looping_message-ne_empty : (name : String) → str_eq (looping_message name) "" ≡ false
unfolding looping_message
looping_message-ne_empty name = append-ne_empty "container " _ refl

restart_message-ne_empty : (name : String) (n : ℕ) → str_eq (restart_message name n) "" ≡ false
unfolding restart_message
restart_message-ne_empty name n = append-ne_empty "container " _ refl

pub crash_loop_in-eq_empty :
    (l : List ContainerStatus) → str_eq (crash_loop_in l) "" ≡ not (any_crash_looping l)
unfolding crash_loop_in
crash_loop_in-eq_empty [] = refl
crash_loop_in-eq_empty (cs ∷ rest) = elim (Bool-cases (is_backing_off cs)) [
  | inl looping ↦ rw looping (looping_message-ne_empty cs.name)
  | inr steady ↦ elim (Bool-cases (restarted_often cs)) [
    | inl often ↦ rw (steady, often) (restart_message-ne_empty cs.name cs.restart_count)
    | inr seldom ↦ rw (steady, seldom) (crash_loop_in-eq_empty rest)
  ]
]
