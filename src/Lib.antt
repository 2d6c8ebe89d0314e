-- ===== src/Lib.antt =====
-- mc-admin is a web administration of a Minecraft server that runs in a container (Python, under
-- app/). A request of the web interface becomes a call of a service (app/domain/services), which
-- checks the role of the user, calls ports (app/domain/ports.py), and writes an audit; the
-- adapters (app/adapters) implement the ports over Docker, RCON and files. Logins pass a limiter
-- (app/api/login_security.py). Restoring a backup is done by a container of its own, which runs
-- app/restore_worker.py over the world's directory. While Minecraft is stopped for a maintenance, the
-- container of app/doorman_server.py answers in its place. Levels of operators wait in a store
-- (app/adapters/pending_op_levels.py) until a restart, for which the container of
-- app/op_levels_worker.py stops the server and writes them into ops.json.
--
-- The library:
--   Base: texts as lists of code points, tests on numbers, lists, Python's dicts and methods of
--     texts, and in Base.Files how atomic_write_json (app/adapters/atomic_json.py) ends: it may raise
--     also after the file has been replaced.
--   Access: app/domain/model.py (permissions, roles, users) and app/domain/rbac.py (roles from
--     the configuration, the default roles).
--   Restore: app/restore_worker.py. Restore.Machine is the disk and the server under faults: each
--     operation may succeed, raise or be killed and leaves what the fault says. Restore.Transaction
--     is restore_transaction and the recovery at the next start. The extraction of the archive and
--     the copies of trees are a record of functions with one law, that writing a copy back gives
--     the world that was copied, as far as an observation sees it.
--   Limiter: app/api/login_security.py. Buckets is one dict of buckets, Keys
--     the settings and the keys, Attempts the methods: _prepare_bucket is prepare, _get_or_create is
--     get_or_create, _drop_empty_bucket is drop_empty, _release_lease is release_lease, and begin,
--     failure, success, cancel are themselves. A KeyError is none. Addresses is ClientIpResolver. The
--     reading of IP addresses and the folding of case are parameters.
--   Service: app/domain/services. A method is an action that returns or raises; every call of a
--     port is in a trace with its answer, and the answers are any function of the trace. Core is
--     base.py (_record is write_audit, _authorize is authorize), Moderation is moderation.py, Actions
--     is actions.py, Maintenance is maintenance.py, under the names of the methods. Requests are the
--     calls of users. Service.Archives is backups.py: Retention is the plan of the retention and its
--     application, Outcomes the results of backups (_scan_backup_outcomes, _finalize_backup), Restores
--     the request of a restoration with its preflight (restore_backup, _restore_preflight_issues) and
--     Ticks the tick of app/restore_coordinator.py (tick_pending_restore, and in Ticks.Operation
--     _tick_restore_operation). The state keeps the restoration that waits for the backup that comes
--     first, the one that has been started, and the backups that are watched; maintenances read it
--     (_restore_in_progress, called by _restoring, which is is_restoring); the ports that a
--     deployment may lack are Booleans of the environment. Proofs about ticks are in a logic of
--     triples over actions (Ticks.Triples), with what is known to have been called as the assertion
--     (Ticks.Known).
--   Doorman: app/doorman_server.py. Varint, Packet (_PacketReader) and Wire (the functions over a
--     socket, on a network that cuts the bytes in any way and breaks when it will) read and write
--     packets; Server is load_consigne and handle_client.
--   Levels: the store of requested levels (Store), what is done to the entries of ops.json
--     (Entries), and the transaction of the worker with the recovery at the next run (Worker), under
--     faults: each operation has a name, and may raise or be killed, done or not. The lower case
--     of a name is a parameter.
--   Schedule: app/adapters/restart_schedule.py (Restarts) and app/adapters/maintenance_state.py
--     (Closings), two classes of the same body over one plan.
--   Sessions: app/api/sessions.py, the registry of sessions, with writes of its file that may raise.
--   TempBans: app/adapters/temp_bans.py, the timers of bans, in a file that anyone may have edited, and
--     a turn of app/tempban_scheduler.py; of a pardon, only what it does to that file.
--   Recurring: app/adapters/recurring_restart.py, the plan of the daily restart; get is get_config.
--   Tests: the theorems at concrete inputs.
--
-- Bounds: three definitions run on fuel. The digits of a number and its groups of seven bits take the
-- number itself plus one; reading n bytes takes n rounds, as each receives one at least. The
-- theorems on what they return show that this is enough. Every loop is a recursion on a list. Times are natural
-- numbers, of any unit in the limiter and of seconds in the services, and durations that the
-- source takes as floating-point numbers are whole.
--
-- Not modelled: the routes and most adapters, which are input and output; the profiles of backups,
-- the progress that pages show and the projection of the storage; updates, monitoring
-- and the game's events; the programmed maintenances and the background ticks of
-- restarts; tokens and the second factor; the checks of the files of the store of levels and its list;
-- the threads of the doorman.
pub mod Base
pub mod Access
pub mod Restore
pub mod Limiter
pub mod Service
pub mod Doorman
pub mod Levels
pub mod Schedule
pub mod Sessions
pub mod TempBans
pub mod Recurring
pub mod Tests
