-- ===== src/Lib.antt =====
-- Verification library of the Multi-VPC CNI plugin, its node agent and its taint controller.
--
-- The program. On each node an agent (cmd/multivpc-eni-agent) takes reports of Pod interfaces from
-- the CNI plugin (cmd/multus-multivpc-cni) over gRPC and queues a job for each. One worker carries
-- out the jobs by an ENI manager (pkg/aws), which finds, creates, attaches, addresses, detaches and
-- deletes EC2 network interfaces, and the agent records what is attached. A Pod watcher
-- (pkg/kube) tells the agent of Pods that end, and the agent queues releases for their records. The
-- network profiles come from a file (pkg/config). A taint controller
-- (cmd/multivpc-taint-controller, pkg/taintcontroller) keeps a taint on the nodes that have no ready
-- agent Pod.
--
-- The files.
--   Base, Base/*: shared types, lists, dictionaries, results, integers and texts. A Go string is the
--     list of its bytes; a Go map is an association list without double keys, whose order stands for
--     the order of a `range` over the map; a pointer is an option.
--   Config: pkg/config/config.go. Load takes the file system and the YAML library as parameters.
--   Aws/Types, Aws/Ec2: the types of pkg/aws/eni_manager.go and `ec2API`, as a record over any state
--     and any error; the clock, the pauses and the context's error belong to the same record.
--   Aws/Device: nextAvailableDeviceIndex. Aws/Addresses: assignIPAddresses and unassignIPAddresses.
--   Aws/Ensure: EnsureInterface, findExistingInterface, createAndAttachInterface and
--     buildAttachmentTag. Aws/Release: ReleaseInterface, detachInterface, waitForDetachment and
--     deleteInterface. Aws/Manager: NewManager, refreshMetadata, DescribeState, and the manager as the
--     agent knows it.
--   Aws/Trace, Aws/Triples: an EC2 that also records its calls, and a logic for what they keep to.
--   Aws/EnsureOrder, Aws/ReleaseOrder: the orders of calls as machines, and that the code keeps them;
--     their Calls hold the parts of the code.
--   Agent/Messages: the messages of proto/syncpb/ip_sync.proto. Agent/Server: agentServer,
--     enqueueJob, handleJob, updateState, deleteState and snapshotStates of
--     cmd/multivpc-eni-agent/main.go. Agent/Handlers: its gRPC methods and Pod hooks.
--   Agent/Steps: the agent at run time as a system of steps, with any interleaving of the handlers
--     with the worker; the worker's round has four parts, between which other steps can come.
--   Agent/Gauge: the queue and its gauge, with moves between a send or a receive and the gauge's
--     change; Gauge/Atomic compares it with the steps that change both at once.
--   Agent/Invariant, Requests, Status, Keys, Drain, Cleanup: what is proved of the agent.
--   Kube: pkg/kube/pod_watcher.go over any informer, whose events come in one list; the agent's own
--     steps between them are in Agent/Steps. Kube/Client: buildKubeClient of both mains.
--   Agent/Watch: the watcher with the agent as its handler. Agent/Main: the start in main and
--     ensureSocketDirectory of cmd/multivpc-eni-agent/main.go.
--   Taint: pkg/taintcontroller/taints.go. Taint/Controller: one round of
--     cmd/multivpc-taint-controller/main.go over any Kubernetes API.
--     Taint/Env: its loadConfigFromEnv, getenvDefault, parseBool and parseDuration.
--     Taint/Loop: its main. Taint/Wanted, Quiet, Converges:
--     what a round leaves in a cluster that nobody else changes.
--   Netns: pkg/netns/interface.go and interface_stub.go, over namespaces and netlink.
--   Plugin/Args, Names, Cache, Conf, Delegates: parseArgValue; sanitizeComponent, truncateID,
--     matchContainer and cacheFilePath; writeCacheEntry and readCacheEntry; loadConfig and
--     resolveNetworkProfile; and configureDelegate with the chains of delegates, of
--     cmd/multus-multivpc-cni/main.go. The file system, JSON and the CNI library are parameters.
--   Plugin/Calls: its callReport, callRelease, waitForAttachedState and waitForHostInterface, over the
--     agent, netlink, net.ParseMAC and contexts. Plugin/Delete: its cmdDel.
--     Plugin/Times: its waitTimeout and pollInterval. Plugin/Details: its collectInterfaceDetails and filterIPv6Global. Plugin/Add: its cmdAdd.
--     Plugin/Commands: its cmdCheck and main. Plugin/Joined: the plugin with the agent behind its client.
--   Tests: runs on concrete inputs.
--
-- Bounds and fuel. Three loops are not over a list or up to a limit. The manager's wait for a
-- detachment has fuel for 17 rounds: with a deadline of 30 seconds and a pause of 2 seconds after each
-- failed look, the 17th round is past the deadline. The plugin's two waits take their fuel as an
-- argument: one round more than the ticks that come before the context ends is enough. Device indices are integers: the code's `int32`
-- loop stays below a limit that is an `int32`, and cannot wrap around.
--
-- Not modelled, or simplified. In Agent/Steps the queue is a list with a size of at least 1, and a
-- handler is one step, with the gauge changed together with the queue; Agent/Gauge has the finer grain
-- and the size 0. A histogram keeps the number of its observations and not the durations. Logs are left
-- out. A successful answer of CreateNetworkInterface and of AttachNetworkInterface is taken to hold
-- its result, as the code does. The texts of wrapped errors are constructors. A path in the cache is
-- a directory with a name in it. Of the plugin,
-- the parser of the CNI arguments is not modelled, nor is the previous result, which loadConfig
-- parses and does not use. A panic of a ticker is a result of its own, after which nothing is called. ToLower is that of
-- ASCII letters, as no other letter becomes one of a word that the result is compared with.
-- time.ParseDuration is a parameter, as it reads fractions by floating point. The generated gRPC
-- code, the gRPC and HTTP servers, the registry of metrics and the agent's shutdown are not modelled.
pub mod Base
pub mod Config
pub mod Aws
pub mod Kube
pub mod Taint
pub mod Agent
pub mod Netns
pub mod Plugin
mod Tests
