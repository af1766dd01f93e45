-- ===== src/Lib.antt =====
-- Verification library of session-platform: the control plane that gives each session its pods, freezes idle
-- sessions into archives and restores them.
--
-- Parts and how they interact. The session service (control-plane/internal/service) works through ports: a state
-- store, a pod orchestrator, a checkpointer for each workload type, the agent of a session's pod and a pool of
-- login slots. The state store is implemented on ConfigMaps and Leases of the Kubernetes API
-- (control-plane/internal/adapter/configmap), whose resource versions carry its compare-and-swap. The idle reaper
-- lists the sessions and asks the service to freeze those that nobody used. The pod orchestrator
-- (control-plane/internal/adapter/k8s) builds a session's pods and creates them through the Kubernetes API. In a
-- pod the agent (data-plane/cmd/agent) runs prompts one after another, keeps their output in a record that clients
-- stream from a cursor, and holds new work back while its state is archived. The control plane also keeps the list
-- of the repositories that sessions may clone, and a session's helper pod asks over its own token for another one.
--
-- Files. Prelude/*: texts (lists of code points), Go results (Result), actions on a world (Action) and the rules
-- for what an action keeps (Keeps) or ensures (Runs).
-- Session/*: control-plane/internal/session/{session,workload_catalog,codex,minimax_code}.go. Types has the states,
-- phases and workload types, Models NormalizeModel, Plugins NormalizePlugins, Catalog WorkloadTypes and
-- NormalizeReasoningEffort, Record the Session aggregate, Errors the error values. Idempotence, Selection and Mirrors
-- hold proofs.
-- Kubernetes: the calls of client-go that the code makes, as a record over an abstract world; Kubernetes/Versions has
-- what is relied on of resource versions (Versioned): an update or a delete is accepted only for the version that it
-- carries. Other replicas may act at every moment, so the write of a call is one step (Next) somewhere between the world
-- before the call and the world after it.
-- Store/*: control-plane/internal/adapter/configmap/store.go. Objects has the names, the labels and the stored form,
-- Records the operations on ConfigMaps, Leases the occupancy lock; Port is StateStore of
-- control-plane/internal/store/store.go with the ConfigMap store as an instance. Stored, Swaps, Onward, Fences and
-- Takeover hold proofs; Fences notes each accepted delete; World is a concrete API server for the tests.
-- Pods: pod sets of control-plane/internal/adapter/k8s/orchestrator.go.
-- Slots/*: the login pool of control-plane/internal/adapter/k8s/auth_pool.go. Leases has the names, the labels and the
-- map from slots to Leases, Pool the renewal, the claim and the release of a slot, Acquire the operation of that name.
-- Won notes accepted writes; Granting, Grants and Reclaim hold proofs.
-- Provisioning/*: control-plane/internal/adapter/k8s/{client_orchestrator,codex,minimax_code,repo_access,drop,
-- shared_volume,network_policy,shell_security}.go and the part of auth_pool.go that mounts a slot. Names has names,
-- images and ports, Parts environment variables and proxies, Workloads what each type adds, Build buildPod, Helpers
-- helperPodSpec, Boundary the network policies and the shared claim, Start startSet, provision, waitReady, Stop and
-- cleanup over a record of API calls. A pod has the fields that the code sets; its restart policy, the delays of its
-- probes and the settings inside a security context, which are constants, are left out. Options has the constructor
-- and its options. Undone, Provisioned, Cleanup, Configured, Listening and Secrets/* hold proofs.
-- Tenancy/*: control-plane/internal/tenancy. Callers has tenants and lookups, Parse the check of the
-- configuration, Resolver the way from a header to a caller with TokenReview as a parameter; Proven and Claims hold
-- proofs.
-- Service/*: control-plane/internal/service/manager.go and reaper.go. Ports has the ports, Slots the login slots,
-- Helpers the shared helpers with the lock of an operation (locked), Create, Access (List, Read, Stream, Write,
-- RefreshPlugins, Switch, activate), Transactions, Freeze, Recovery and Snapshot the freeze with its durable
-- transaction, Restore, Terminate and Reaper the operations of these names. Observed wraps ports so that each call
-- that changes something is noted in a trace; the proofs about the order of calls (Commit, Reclaim, FreezeSafety,
-- Cleaned, Unstarted, Cleanup, Deletion, Passive, Sweep) run the operations on such ports. Frozen, Rounds and Refs hold further proofs.
--
-- Agent/*: data-plane/cmd/agent. Bytes has the cut at a rune, Scrollback the output record of main.go, Stream the
-- server side of output_stream.go, Workload/* the critical sections of claude.go and claude_subscription.go, each a
-- function of the workload's state, Machine the interleavings of those sections (step, run), Redactor and Sink the
-- streaming redactor and the bounded sink of claude_stream.go. Bounded, Wakeups, Delivery, Invariant, Barrier, Drain,
-- Scan, Matches, Kept, Found, Exact, Flow and Quota hold proofs.
--
-- Agent/Archive/*: data-plane/cmd/agent/state_archive.go. Archive has the names and the links of an archive, Extract
-- what becomes of an entry and restoreStateArchive up to the installation. The staging directory is a list of paths
-- with what stands there. Resolve, Sound, Restored and Contained hold proofs.
-- RepoAccess/*: control-plane/internal/repoaccess/store.go and control-plane/internal/helperauth/helperauth.go. Names has
-- NormalizeRepo, Store the operations on the two tables with what their SQL says, History any sequence of calls,
-- History/Changes the changes that one call can make as a relation (Changes), and
-- Helpers the way from a helper's token to its session. SQLite may refuse any statement of a call, and then what the
-- call's transaction did is undone. Performed, Consistent, Granted, Bound and Recognised hold proofs.
--
-- Concurrency and time. Every port answers from a world that anybody may have changed, so a theorem over all ports
-- covers every interleaving with other replicas. The context error, the clock and the report of the lease heartbeat
-- are functions of the world. In the agent, each section that holds the workload's mutex is one step, and a run is a
-- list of steps in any order.
--
-- Bounds. The retries of the store are the code's own (put_max_retries). recoverSnapshotLocked calls itself again
-- without a bound while its claim meets a conflict; recover_snapshot_locked takes the number of its rounds and raises
-- `unfinished` beyond it. A bound is enough as soon as one claim is not refused by a conflict, since that round
-- asks for no further one. wait_ready takes the number of reads after the first that its timeout leaves time for,
-- and fails beyond it as the code does at its deadline. The loop of a stream has as many rounds as the record has
-- bytes from the cursor on, and one more for the reset; the loop of the redactor has one round for each byte that it
-- holds, and each round uses one up.
--
-- Not modelled: log lines and message texts of errors, the goroutine of the heartbeat itself, encoding/json (a
-- parameter Codec), the HTTP API, the opening of the SQLite file and the parsing of its times, the check of a new
-- pod's attach stream (Reach, a port of the service), and in the data plane the processes that the agent starts and
-- their settings files, the projector of stream-json and the UTF-8 normaliser, the writing of a state archive and
-- the installation of a restored one, the session MCP server, the Codex and MiniMax workloads and the proxies.
-- Texts are lists of code points, so a string that is not valid UTF-8 is out of the model.
-- Offsets and counters of the agent are natural numbers, so the end of their 64-bit range is out of the model;
-- where a counter is compared with its own past the code's wraps after 2^64 writes. Limits are at least zero, as
-- the constants are.
mod Prelude
pub mod Session
pub mod Kubernetes
pub mod Store
pub mod Pods
pub mod Slots
pub mod Tenancy
pub mod Provisioning
pub mod Service
pub mod Agent
pub mod RepoAccess
