-- ===== src/Lib.antt =====
-- Node-Pilot: a controller for KVM hypervisors (backend/, Django and Celery) and the agent that
-- runs on each node (agent/). This library models the controller's own logic, and
-- of the agent the documents and names that it builds and its operations on disks, storage pools
-- and networks.
--
-- How the program works. A request is checked by a service, which writes rows and makes a `Job`;
-- when the transaction commits, a Celery task is queued. The task takes the locks of its VM, runs
-- steps (`job_run`), each of which may send operations to the node's agent and wait for the
-- answer, saves rows, and ends the job. Services and tasks raise exceptions; a service inside a
-- transaction is rolled back, a task is not.
--
-- Requests are authenticated and pass a permission check before a service runs; the agent keeps a
-- WebSocket open over which commands go out, and Redis holds the sign that it is connected.
--
-- Which file models what (paths below backend/apps/ in the repository):
--   Common/     names, tests and lists that all share; `Error`, the exceptions; `Exec`, code that
--               reads and writes a state and may raise (the state comes back beside the error)
--   Jobs/       jobs/models.py, jobs/services.py, jobs/tasks.py: the job's row, `transition` and
--               the other services, `JobBoundTask`; `Machine` and `Invariant` take any history of
--               service calls with any, possibly stale, `Job` objects
--   Task/       what tasks share: `Protocol` (nodes/protocol.py), `World` (the job's row and the
--               task's own object, locks, answers to come, commands sent, events, rows), `Agent`
--               (nodes/agent_client.py), `Run` (`job_run`, the handlers, Celery), `Saved` (one
--               object and its row); `Keeps`, `Ends`, `Rows` and `Locked` are rules that prove a
--               property of a task from properties of its parts
--   Vm/         virtual_machines/: `Model`, `Payload` (what the agent is sent), `Rows`,
--               `Tasks/Provision`, `Tasks/Lifecycle`, `Tasks/Devices`, `Tasks/Clone`,
--               `Services`, `Attach`, `Creation` (`create_vm`)
--   Snapshots/  snapshots/models.py, snapshots/tasks.py, snapshots/services.py
--   Backups/    backups/models.py, backups/tasks.py, backups/services.py, and `Schedules` for the
--               schedules with the requests and the check of backups/views.py and serializers.py
--   Storage/    storage/models.py; storage/tasks.py and storage/services.py without the sweep and
--               the service that makes a pool's row
--   Quota/      organizations/services.py and the quota's model
--   Nodes/      nodes/models.py, nodes/services.py, nodes/reconciliation.py, nodes/tasks.py, and
--               `Scheduler` for virtual_machines/scheduler.py
--   Ipam/       networks/models.py, the address functions of networks/services.py, and the
--               requests of `IPAddressViewSet` (networks/views.py)
--   Networks/   networks/tasks.py
--   Locks/      common/locks.py: `RedisLock` over a record of Redis commands and their laws
--   Upload/     images/models.py, images/storage_backend.py, and the upload views of
--               images/views.py
--   Permissions/ permissions/policies.py with its cache, common/permissions.py (the gate before
--               views), the list query of common/viewsets.py, API tokens of authentication/
--   Channels/   authentication/ws_ticket.py and ws_auth.py (`Tickets`), nodes/consumers.py
--               (`Agents`) and the histories of connections (`Presence`, `Reachable`)
--   Webhooks/   webhooks/: dispatch, `Security` (the addresses), `Delivery` with its retries
--   Hypervisor/ of the agent (agent/nodepilot_agent/): `DomainXml` and `Domain` for domain_xml.py,
--               `Network` for the names of network.py
--   Host/       of the agent: storage/ (`Backends`, `Volumes`), operations/disk_ops.py and
--               storage_ops.py (`Disks`), image_fetch.py, and `Links` for the commands of
--               network.py and operations/network_ops.py; `Shell` is a run of commands, with each
--               command's answer
--
-- How things are represented. Rows are records and tables are lists; a foreign key is the number
-- or the record that the code reads through it. Identifiers and times are numbers, times in
-- seconds. An error text is the exception it was made from. What the environment decides is
-- input: a `Reply` says, for each agent call, how long it takes, whether a user cancels the job
-- meanwhile, and what each poll reads; `busy` says which locks others keep. Python's floats, the
-- commands of Redis, Django's cache, JSON and SHA-256 are parameters; what DNS, a webhook's receiver
-- and the HTTP client do is input. On a node, the answers of commands, the file system, the output of `ip`
-- and the random names and MAC addresses are parameters, and so are the checks of Celery Beat on
-- the fields of a cron expression and on time zones. Number columns are not bounded: none of the modelled
-- arithmetic wraps.
--
-- Recursion is over lists, and over the reads that an agent call has left, which is its timeout
-- in fifths of a second. The digits of a number n are written with n + 1 as fuel; no other fuel is
-- chosen.
--
-- Not modelled: the expiry of a lock under the task that holds it, the sweep over storage
-- pools, consoles and the feeds for browsers, JWT and passwords, what a fired backup schedule runs,
-- of the agent what calls libvirt, its backups and the snapshots of its storage backends, and what is
-- glue (most views and serializers), configuration, or recorded only for people (events, audit,
-- metrics). A task of an interrupted worker is not resumed in the model.
pub mod Common
pub mod Jobs
pub mod Task
pub mod Storage
pub mod Vm
pub mod Snapshots
pub mod Permissions
pub mod Channels
pub mod Webhooks
pub mod Hypervisor
pub mod Host
pub mod Quota
pub mod Nodes
pub mod Ipam
pub mod Networks
pub mod Backups
pub mod Upload
pub mod Locks
