-- ===== src/Lib.antt =====
-- Android Device Farm: the operator's three controllers and the lease command, with theorems on
-- what they read and write.
--
-- The program. Devices, device classes, device pools and device leases are Kubernetes resources
-- (operator/api/v1alpha1). Three controllers reconcile them, each on its own copy of what the API
-- server last said, and meet only through the API server:
--   - the device controller (operator/internal/controller/device_controller.go) backs a device with
--     an emulator pod and a Service, derives the device's phase from the pod, and recreates the pod
--     of a failed device with a backoff that it keeps in annotations;
--   - the lease controller (devicelease_controller.go there) binds a pending lease to a free Ready
--     device, provisions or evicts where there is none, and releases the device of a lease that
--     expired or is deleted;
--   - the pool controller (devicepool_controller.go there) keeps `minWarm` devices of each class
--     within `maxConcurrent`, and counts the devices by phase.
-- operator/cmd/main.go sets the three up at a manager and starts it. The command `farmctl`
-- (client/main.go) creates a lease and waits for it, beats for it, releases it.
--
-- The files.
--   - Common, Go: helpers on lists, options, text and integers; Go's `int32`, `time` and `strconv`.
--   - Api: the resources, field by field (operator/api/v1alpha1/*_types.go), and their metadata;
--     Memory has how their values lie in memory, and the functions of zz_generated.deepcopy.go there.
--   - Kube: Objects has the fields of pods, services and jobs that are used; Effect the calls: a
--     call takes the world to a result and a world, and what was written before an error stays
--     written; Client the API server, the clock and the library functions as a parameter, `Env`;
--     Laws the behaviour of those that theorems assume; Trace an environment that logs what is
--     read and sent, over any environment; Hoare the rules for invariants of calls.
--   - DeviceController: Phase (`computePhase`, `podReady`, `crashLoopReason`), Backoff
--     (`backoffDuration`), Objects (`buildPod` and the other literals), Annotations (`annInt`,
--     `annTime` and what `recoverFailed` and `markHealthy` write), Ensure (`ensureService`,
--     `ensurePod`, `ensureRegistration`), Status (`setPhase`), Recovery (`recoverFailed`,
--     `markHealthy`), Reconcile (`Reconcile`, `reconcilePhysical`).
--   - LeaseController: Select (the loops over lists), Status (`writeStatus`, `ttlDuration`), Capacity
--     (`ensureCapacity` and what it calls), Release (`releaseDevice`), Pending (`reconcilePending`),
--     Bound (`reconcileBound`, `deviceHealth`), Reconcile (`Reconcile`, `leasesForDevice`);
--     Exclusive says what may be written to a device, Lifecycle what to a lease, and Order in which
--     order.
--   - PoolController: Provision (`newPoolDevice`, `createDevice`), Counts (`computeCounts`), Warm (the
--     loops of `Reconcile`), Reconcile (`Reconcile`, `updateStatus`, `poolsForLease`).
--   - Exclusion: the device statuses that the API server takes from the reconciles of leases and of a
--     device, in any interleaving, as steps from one state of the device to the next, and the lock
--     that they implement.
--   - Operator: Options (the flags of operator/cmd/main.go and the options built from them), Watches
--     (`SetupWithManager` of the three controllers), and `main` with its exits; Steps has the order of
--     its calls.
--   - Farmctl: the command behind its parsed flags; Startup has `main` and `newClient`,
--     Beating what the lease controller makes of a heartbeat.
--   - Tests: a small farm, runs of the definitions on it, and the theorems at it.
-- A Go function that branches is cut at its branches into functions by clauses, in the order of the
-- source; an early return on an error is the bind of Effect, `IsNotFound` is `optional`,
-- `IsConflict` is `unless_conflict`, and an error that is dropped is `tried`.
--
-- Interleavings. `Env` leaves the world and every answer open, so others may change the cluster
-- between any two calls of a reconcile. The theorems on logs hold for all of them.
--
-- Numbers. An `int32` is its bit pattern, a number below 2 ^ 32: counters wrap and `lt32` is the
-- signed comparison. The shift of `backoffDuration` is on 64 bits. Times are nanoseconds from Go's
-- zero time, without an upper end; durations are integers, and `Sub` saturates. The only loop
-- that is not over a list is the inner warm-up loop; `rounds`, the distance from the count to
-- `minWarm` as signed numbers, bounds it, which a theorem shows to be enough.
--
-- Memory. In Api/Memory a pointer, a slice or a map is an address with what lies there, nil is `none`,
-- and allocation takes the next address, so that a copy tells which addresses are its own. Elsewhere a
-- slice or a map is its elements.
--
-- Not modelled: the scheme, logging, and the manifests, charts and images. A pod has the fields that the controllers set or read. `activeDevicesByClass` returns a
-- map, whose order Go leaves open; here it has the order of first insertion, and theorems show that
-- what is computed from it is that of the plain list. `%q` prints a class name without escapes, as
-- the names of resources have nothing to escape. The resource version that makes the API server
-- refuse a stale write is a field of the metadata that the controllers only carry; the refusal is
-- an answer of the server, and `Takes` of Exclusion says when a write is not refused. The manager of
-- the operator, the `flag` package behind `farmctl` and the poll of `acquire` are parameters.
pub mod Common
pub mod Go
pub mod Api
pub mod Kube
pub mod DeviceController
pub mod LeaseController
pub mod PoolController
pub mod Exclusion
pub mod Operator
pub mod Farmctl
pub mod Tests
