-- ===== src/Lib.antt =====
-- A verification library for the Python programs of this repository. It models, at present, the
-- OpenDeck broker (opendeck-broker/): the process that shows the live OpenCode terminals of a machine
-- on the six keys of a small key device and that brings a terminal to the front when its key is
-- pressed; the earlier deck (opencode-deck/) with its registry of agents and its broker; the router
-- in front of the inference backends (router-legacy/); and the planner of the benchmark (llmbench/).
--
-- The parts of the broker and how they interact
--   Terminals register with the registry and send it snapshots and heartbeats. The registry gives each
--   live instance the lowest free key, counts how often a key has been given out, drops messages that
--   are older than the last one it took, and frees a key when its terminal leaves, dies or stays
--   silent for longer than its lease. The REST service turns requests into calls of the adapter, which
--   keeps the launched terminals, checks whether their processes live, and offers the registry what
--   the observer read of their sessions. The broker draws the registry's frame on the device, skipping
--   the images that it sent before, takes the presses of the device into a queue with the instance and
--   the generation that the key had, and, when it works the queue off, checks a press against the
--   registry before it focuses the terminal's window. The model turns the facts that an instance
--   carries into the appearance of its key. The main loop runs these in turn.
--
-- The other programs
--   The earlier deck's broker answers requests of agents, which enter its registry and send it
--   snapshots, and presses of keys, which it checks against the registry and drops if they come too
--   soon after another one. The router probes its backends, gives each request the backend of an image,
--   of its session or of the smallest priority number that is free, counts the requests under way, and
--   releases a request's slot at the end of its stream. The benchmark's planner gives the loop of the
--   command one cell of a plan after another and adds cells where the measurements are of interest.
--
-- Files and code
--   Prelude, Prelude/*        Python's exceptions as a result type, list indexing that raises, dicts
--                             in the order of insertion, and the lemmas on them.
--   Opendeck/Model            opendeck-broker/opendeck_broker/model.py: Status, DisplayAppearance,
--                             Process, Instance, its methods and derive_display. Proofs in Pending.
--   Opendeck/Objects          the store of the Instance objects that are shared by reference.
--   Opendeck/Registry         opendeck-broker/opendeck_broker/registry.py, class Registry: register,
--                             accept_snapshot, heartbeat, detach, process_exit, sweep_expired,
--                             mark_untrusted. Frame has frame, resolve and validate_press, Diagnostics
--                             has overflow and to_diagnostics. Placing, Validity, Preserves, Freeing
--                             and Calls treat the form of the registry, Rules the rule that carries a
--                             property over every call, Slots and Staying what happens to the keys,
--                             Shown what the frame has, Presses what a press may reach, Snapshots and
--                             Accepting the order of messages.
--   Opendeck/Focus            opendeck-broker/opendeck_broker/focus/windows.py, resolve, focus and
--                             focus_marker of WindowsFocusAdapter. Proofs in Targets.
--   Opendeck/Device           opendeck-broker/opendeck_broker/device/base.py as an interface, and
--                             device/mock.py as an implementation of it.
--   Opendeck/Broker           opendeck-broker/opendeck_broker/broker.py: rendering, reconnection, the
--                             press queue, focusing (in Focusing) and the sweep. Proofs in Rendering,
--                             Uploads and Delays.
--   Opendeck/Process          opendeck-broker/opendeck_broker/process.py, is_alive and the variants it
--                             chooses from. Proofs in Identity.
--   Opendeck/Paths            the form of directories that the observer and the adapter compare.
--   Opendeck/Observe          opendeck-broker/opendeck_broker/opencode/observe.py,
--                             snapshot_by_directory over the rows of its query. Proofs in Filing and Summary.
--   Opendeck/Adapter          opendeck-broker/opendeck_broker/opencode/adapter.py: register_launch,
--                             refresh, detach and heartbeat. Coherence, Written, Launching and Leaving
--                             treat how launches and registry fit, Rounds, Ended, Outcomes,
--                             Refreshing and Displays what a refresh does.
--   Opendeck/Samples          data that the tests share.
--   Opendeck/Routes           the method and the path of a request of the service.
--   Opendeck/Messages         opendeck-broker/opendeck_broker/api.py, the requests and the answers.
--   Opendeck/Api              the handlers of _Handler in the same file. Proofs in Access and Snapshots.
--   Opendeck/Main             opendeck-broker/opendeck_broker/main.py, the body of run's loop. Proofs
--                             in Steps and Ticks.
--   Deck/Agents               opencode-deck/opencode-deck/ocdeck/model.py, the agents.
--   Deck/Registry             opencode-deck/opencode-deck/ocdeck/model.py, class Registry: upsert and
--                             snapshot; Removing has remove and sweep, Views has view and resolve.
--                             Proofs in Placing, Arriving, Entering, Leaving, Departing,
--                             Sweeping, Runs and Order.
--   Deck/Broker               opencode-deck/opencode-deck/ocdeck/broker.py, class Broker: handle_press,
--                             the rounds of serve, and device.py, DeviceLoop.press. Requests has
--                             dispatch and the handler. Proofs in Guards and Debounce.
--   Router/Json               what json.loads returns.
--   Router/Backends           router-legacy/router.py, Backend and the probes.
--   Router/Requests           router-legacy/router.py, _hget, extract_session_id, _has_image, _auth_ok.
--                             Proofs in Images.
--   Router/Routing            router-legacy/router.py, class Router: sessions, select, release and the
--                             counters. Proofs in Choosing, Cleaning, Found and Selection.
--   Router/Traffic            the requests under way at once, as a list of events. Slots, Balance,
--                             Releasing, Runs, Losses and Start treat the counters.
--   Router/Proxy              router-legacy/router.py, proxy and the pages. Proofs in Guards.
--   Llmbench/Cells            llmbench/src/llmbench/schemas/core.py, WorkloadCell and its key.
--   Llmbench/Plans            llmbench/src/llmbench/planner/plan.py, light_plan, heavy_plan, _dedupe.
--                             Proofs in Limits and Fitting.
--   Llmbench/Knee             _find_saturation_knee of the same file.
--   Llmbench/Planner          the class Planner of the same file, and the loop of the command `run` in
--                             llmbench/src/llmbench/cli/main.py. Proofs in Coordinates and Rounds; in
--                             Universe, Counting, Bounded and Ending that the loop ends.
--   */Tests                   concrete runs, and the instances of the theorems at them.
--
-- How the code is read
--   State is passed explicitly. An operation that can raise returns a Result, and what it wrote before
--   it raised is not kept. An Instance is an object that the registry and its callers share, so the
--   registry holds references into a store of objects, which the operations thread. Times and leases
--   are natural numbers of one unit; `now - seen > lease` is written `seen + lease < now`. Numbers of
--   sequences and generations are unbounded, as they are in Python. Loops over slots, instances and
--   queued presses are structural recursions over the numbers and lists that the code ranges over, so
--   that no fuel is needed. Locks are left out: each operation that holds the registry's lock is one
--   step. A handler, a tick and a round of serve are sequences of such steps that no other thread comes
--   between; where the code of the earlier deck has no lock, in handle_press, the checks and the writes
--   of a call are two steps, and Deck/Broker/Debounce takes those of several threads in any order. A
--   focus target is a dict with texts for values. A tick of the main loop takes place at one time. An
--   agent of the earlier deck is owned by its registry alone, which hands out copies, so it is a value
--   there; a field of a request is of the type that the code reads, or missing. The tasks of the router
--   take turns only where they wait, so that what runs between is one step; a backend's probe writes
--   what it learnt at once. Texts of requests are ASCII, with escapes of printable ASCII, numbers in
--   JSON are natural numbers, rates of the benchmark are whole numbers of a small unit, and the
--   quotients of _dedupe, which Python computes in floating point, are exact.
--
-- Parameters
--   The image library (a function from what the painter is given to the bytes of the image), the
--   windows of the desktop with the result of the activation call, the device (a record of operations,
--   with its documented behaviour as a record of laws), what psutil and the system's calls say of a
--   process, the rows that the observer's query gives, the ids that uuid makes, the places of new
--   objects, the probe and the activation of windows of the earlier deck, the network's answers to the
--   router's probes with Python's reading of numbers in them, and the benchmark's executor are
--   parameters.
--
-- Not modelled
--   The Win32 and HID calls, sockets and JSON text, the lock files, command lines and tools of the
--   brokers, the deck's stream after its first event, the bytes of the router's streams, its logs and
--   its metrics text, and of the benchmark what is not the planner (and the planner's writes to
--   cell_id, which no key contains): scores and statistics are floating-point formulas, the executor
--   and the discovery are network I/O. Of the rest of the repository, the scripts of streamdeck/ and of
--   qwen3.8-27b/, and what is not Python.
pub mod Prelude
pub mod Deck
pub mod Opendeck
pub mod Router
pub mod Llmbench
