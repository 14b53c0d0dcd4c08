-- ===== src/Lib.antt =====
-- NetAutoOps, a network automation and monitoring service (app/): its inventory of devices, its
-- health checks, backups and interface checks, the events that it sends to n8n, its scheduled jobs
-- and its access control.
--
-- The parts, and the file that models each:
--   Models          app/models/: the rows of the tables
--   Config          app/core/config.py: the settings
--   Exec            Python code with effects: a function of the state that returns or raises
--   External        what the program calls and does not implement, as a record `Env` of functions
--   World           the state: the tables behind the session, the clock, and logs of what was sent
--   Monitoring      app/monitoring/: regular expressions, vendor adapters, reachability, netmiko
--   Events, Alerts  app/alerts/: payloads, the webhook client with its retries, event_service
--   Services        app/services/: monitoring, device, user, backup, interface and alarm services
--   Security        app/core/security.py: passwords and tokens
--   Backup          app/backup/storage.py: the paths of backups
--   Api             app/api/: the caller, roles, validators, handlers; app/main.py: Api/App
--   Scheduler       app/scheduler/: the jobs over all devices, and the scheduler that runs them
--   Sample, Examples  a concrete setting, and the theorems applied at it
--
-- An API request or a scheduled job calls a service with a session. The service reads rows, asks
-- the network, commits one change, and dispatches an event. Here a service is a function from the
-- state `World` to a result and the new state; the answers of the network, of netmiko, httpx,
-- ipaddress, bcrypt, PyJWT, the file system and the database server come from `Env`, and every
-- theorem holds for all of them.
--
-- The database is modelled, not SQLAlchemy: a table is the list of its rows, a query is the list
-- expression that it denotes, and a commit either gets through or not, as `Env` says. A commit that
-- does not get through, or violates a constraint, raises, and until the next rollback every use of
-- the session raises too, also to read an attribute of a row, as SQLAlchemy documents. The clock
-- stands still within one operation. Another session writes between two steps of an operation only
-- where the operation takes such a write as an argument `others`. Api/App/Reachable runs all of it
-- as one step relation: registrations, logins, requests, scheduled jobs and the passing of time.
--
-- A text is a list of code points; letter case and digits are those of ASCII. A float is a number of
-- hundredths, rounded exactly. A loop over a list or a range is structural recursion. The digits of
-- a number n are computed on fuel n, which is enough since each step divides by ten.
--
-- The order of texts, in a query and in Python, is that of their code points. The database answers
-- every query, unless a rollback is due. APScheduler is a record of operations (Scheduler/Lifecycle)
-- on a state of its own.
--
-- Not modelled: the static endpoints / and /health, the creation of the tables, logging, the ORM's
-- and pydantic's own machinery, and the React frontend. A request's `skip` and `limit` are natural
-- numbers. An update of a device has no write of another session between its check and its commit.
-- Three exceptions are left out: int() and the division of huge numbers (more than 4300 digits) in
-- the parsers of a health check, urlsplit in the log lines of the webhook client, and a text that
-- write_text cannot encode.
pub mod Alerts
pub mod Api
pub mod Backup
pub mod Base
pub mod Config
pub mod Events
pub mod Examples
pub mod Exec
pub mod External
pub mod Models
pub mod Monitoring
pub mod Sample
pub mod Scheduler
pub mod Security
pub mod Services
pub mod World
