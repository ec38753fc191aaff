-- ===== src/Exclusion/Logs.antt =====
-- The part of a log up to one of its events.
use android_device_farm.Common.{String, List, [], ◌∷◌, ◌++◌}
use android_device_farm.Kube.Trace.{
  Event, saw_devices, sent_device_status, sent_device, created_device, deleted_device,
  sent_lease_status, sent_lease, created_lease, patched_lease, deleted_lease, sent_pool_status,
  created_pod, deleted_pod, created_service, sent_service, created_job,
}
use android_device_farm.DeviceController.Bindings.{Preserved}
use android_device_farm.LeaseController.Exclusive.{Justified}

Justified-tail :
    (lease : String) (e : Event) (log : List Event)
    → Justified lease (e ∷ log)
    → Justified lease log
Justified-tail lease (sent_device_status d) log h = h.1
Justified-tail lease (saw_devices ds) log h = h
Justified-tail lease (sent_device d) log h = h
Justified-tail lease (created_device d) log h = h
Justified-tail lease (deleted_device d) log h = h
Justified-tail lease (sent_lease_status l) log h = h
Justified-tail lease (sent_lease l) log h = h
Justified-tail lease (created_lease l) log h = h
Justified-tail lease (patched_lease l) log h = h
Justified-tail lease (deleted_lease k) log h = h
Justified-tail lease (sent_pool_status p) log h = h
Justified-tail lease (created_pod p) log h = h
Justified-tail lease (deleted_pod k) log h = h
Justified-tail lease (created_service s) log h = h
Justified-tail lease (sent_service s) log h = h
Justified-tail lease (created_job j) log h = h

pub Justified-before :
    (lease : String) (after log : List Event) → Justified lease (after ++ log) → Justified lease log
Justified-before lease [] log h = h
Justified-before lease (e ∷ after) log h =
    Justified-before lease after log (Justified-tail lease e (after ++ log) h)

Preserved-tail : (e : Event) (log : List Event) → Preserved (e ∷ log) → Preserved log
Preserved-tail (sent_device_status d) log h = h.1
Preserved-tail (saw_devices ds) log h = h
Preserved-tail (sent_device d) log h = h
Preserved-tail (created_device d) log h = h
Preserved-tail (deleted_device d) log h = h
Preserved-tail (sent_lease_status l) log h = h
Preserved-tail (sent_lease l) log h = h
Preserved-tail (created_lease l) log h = h
Preserved-tail (patched_lease l) log h = h
Preserved-tail (deleted_lease k) log h = h
Preserved-tail (sent_pool_status p) log h = h
Preserved-tail (created_pod p) log h = h
Preserved-tail (deleted_pod k) log h = h
Preserved-tail (created_service s) log h = h
Preserved-tail (sent_service s) log h = h
Preserved-tail (created_job j) log h = h

pub Preserved-before : (after log : List Event) → Preserved (after ++ log) → Preserved log
Preserved-before [] log h = h
Preserved-before (e ∷ after) log h = Preserved-before after log (Preserved-tail e (after ++ log) h)
