-- ===== src/Lib.antt =====
-- rsync-gateway is a Kubernetes controller and a TCP proxy for the rsync protocol. The control
-- plane (internal/gateway) turns a snapshot of cluster objects into decisions: which
-- GatewayClasses are ours, which routes bind to which Gateway and win which modules, which
-- backends they may use, and what the statuses say. internal/translate makes the data plane's
-- configuration of it, which the proxy (pkg/server) loads; the proxy admits connections through
-- one queue per upstream (pkg/queue).
--
--   Prelude    names, lists, results, integers, maps and texts that all other files share
--   Queue      pkg/queue/queue.go. `Queue` is the struct of that name with the channels of its
--              handles: a handle is named by its channel, `acquire`, `release` and `set_max` are
--              the methods, and each is one step, since each holds the mutex throughout. A send
--              that Go answers with a panic, or that blocks with the mutex held, is a `Fault`.
--   Api        api/v1alpha1: the constants of identity.go, GatewayConfigSpec and its Validate
--   Gateway    internal/gateway: Objects (the Kubernetes objects, snapshot.go), Claim (claim.go),
--              Backends (backends.go), Bind and Conflicts (bind.go), Conditions (conditions.go),
--              Status (status.go), Ports (ServedPorts of status.go)
--   Translate  internal/translate/translate.go
--   Controller internal/controller/reconciler.go: buildTable, Statuses (writeStatuses, which
--              gives the snapshot with the new statuses, the updates and events in order, and the
--              error or the panic of a nil pointer that ends it), Events (emitRouteEvents) and
--              Reconcile. The client's lists, the answer to each update (which may
--              depend on all effects before it) and the data plane's answer are parameters; an
--              update leaves in the object what was sent.
--   Dataplane  internal/dataplane/dataplane.go: Apply, one loadConfig after the other, each with its
--              own answers of the system, and Drain;
--              Create is New, over the listeners that are open (`Sockets`)
--   Server     pkg/server: the types of config.go and the part of the Server that loadConfig
--              sets; Load is loadConfig, which gives the server afterwards with the error, since
--              an error can come after some of the writes. It uses the operations of Queue.
--              Balance is chooseTargetByClientIP; Admission is the per-IP counter of relay, in
--              which each atomic Add is a step and any order of the sessions' steps is a run; a limit
--              that is not positive turns the cap off.
--              Wire is utils.go. Relay is relay and handleConn: a session is a function of its
--              surroundings (`Env`: addresses, the server at each moment, the statuses and
--              minutes that it meets) and of what is still to be read (`World`), which records
--              each effect; `finally` is a defer, and a read, a queue or a copy that never returns
--              is `blocked`, while a write returns (the data plane sets a timeout)
--              and so does a dial (the system gives it up).
--              Forward is the part that talks to the upstream, Line the waiting, Session the
--              rest; Protocol is the automaton that a session has to follow, and Rules and Stages
--              serve to show it. Watch is the watcher that ends idle, long and slow relays.
--              Listen is Listen, Close and listenTCPOrUnix, on numbered listeners. Discovery is
--              discoverModulesFromUpstream, on a text that stands for what the upstream sends.
--              Metrics is metrics.go: the text of all metrics, made of the values read for it
--              (`Readings`).
--
-- Go's int is an integer without bounds, except in time.Duration(s) * time.Second, where int64
-- wraps around: the queue's numbers are lengths of slices and limits, which do not reach 2^63. A
-- Go map is an association list (`Map`), a range over it takes the entries in list order; a
-- pointer that may be nil is an Option. Loops over slices are structural recursion, so there is
-- no fuel but in `decimal`, where n + 1 rounds are enough for the digits of n. sort.Slice and
-- sort.Strings are insertion sorts by the same order; the keys sorted differ, so no other result
-- is sorted. net.SplitHostPort and strconv.ParseUint are written out where ServedPorts calls
-- them. time.ParseDuration, the evaluation of a label selector, name resolution, the files of a
-- key pair, the log files, the text of a number of seconds and the discovery of an upstream's
-- modules are parameters, with nothing assumed of them. The present in a status is a function of
-- the condition that is stamped, for the same reason.
--
-- Not modelled: the accept loops, the HTTP handlers of pkg/server, the copying of bytes itself,
-- deadlines (an expired one is an error of the read), Start of internal/dataplane, the
-- registration of watches, the command line, logging.
pub mod Prelude
pub mod Queue
pub mod Api
pub mod Gateway
pub mod Server
pub mod Translate
pub mod Controller
pub mod Dataplane
