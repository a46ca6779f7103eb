-- ===== src/Lib.antt =====
-- The operations scripts of STIR: scripts/ and a part of deploy/idax-ledger/ of this repository.
--
-- Parts, and how they interact. The scripts build, run, watch, save and repair a compose stack. update.py
-- pulls the repositories and calls initialize.py and deploy.py; deploy.py builds and starts the services,
-- waits for their health, calls smoke.py and rolls back; status.py reports on the stack; backup.py and
-- restore.py save and replace its data. audit_security_status_probe.py polls the public security status
-- for a monitor, which reads its exit status. multitenant.py holds the guards that the end-to-end
-- fixtures call before they send SQL to a stack, and audit_ostris_fault_proxy.py stands between a module
-- and osTRIS in such a fixture and injects faults. The end-to-end scripts drive a live stack over HTTP,
-- with the request helper of smoke.py and the sql of multitenant.py, and assert on its answers.
--
-- Host (no code of the repository): the machine, as a record of the answers that docker, git, the files,
-- the terminal and the clock give; each may depend on the whole history. A script is an action
-- (Host/Exec): it reads the answers, adds events to the history, and returns or raises. Host/Emits,
-- Host/Raises, Host/Returns, Host/Course and Host/Loops say what an action may do, raise, return with
-- and run in a row, with a rule for each way to build an action; Host/Passing says what an action that
-- passes has seen. Host/Clock is what the waits rely on. The field web of a host holds what answers
-- requests and the libraries that the scripts call: JSON texts, hashes, Ed25519 and RSA signatures,
-- random draws, the case tables of Unicode, and the text of the time of day.
--
-- Base: shared names, lists over the native numbers, and the methods of Python's str that the scripts use.
-- Json: the values that json.loads gives.
-- Py: what Python does with such values: truth, equality, subscripts, +, comparison, formatting, loops
--   and comprehensions over lists, assertions and draws, with the exception that each raises on a value
--   of another kind. A float is held as its text. Numbers are written with up to 64 digits.
--
-- Probe: scripts/audit_security_status_probe.py. parse_security_status goes through the guards in their
--   order (check_payload, check_state_field, check_count_field, check_count), poll_once turns the result
--   into a status, exit_status is what the interpreter exits with, watch is main with --loop over the
--   answers of as many polls; whether time.sleep takes the interval, a float, is an argument of it. UTF-8 is decoded here (decode_utf8); json.loads and urlopen are parameters.
-- Compose: scripts/multitenant.py, compose_project, verify_isolated_container and sql. The process's
--   environment is the history of the variables that it has set.
-- Proxy: scripts/audit_ostris_fault_proxy.py. The mode under the lock is passed from exchange to exchange
--   (serve): the order in which the threads take the lock is the order of the list. The handlers run from
--   the bytes that the peer sends until it closes the connection; the readers get one round for each byte.
--   int takes a Content-Length of any length and read any size here, where Python refuses one of more than
--   4300 digits, or beyond the size of an object. SentHeaders is about the headers that urllib sends.
-- Deploy: scripts/deploy.py. main is split into recreate and finish; the wait gets 61 rounds, since a
--   round sleeps for 5 of its 300 seconds.
-- Restore: scripts/restore.py. confirm is the consent, replace what follows it.
-- Backup: scripts/backup.py. write_backup is main before the pruning; --keep and the time stamp are
--   arguments. Whether shutil.rmtree can remove a directory is an answer of the host.
-- Status: scripts/status.py. The line on the disk, computed in floating point, is a parameter, and so is
--   the decimal notation of a number.
-- Update: scripts/update.py. The directory that holds the repository is a parameter.
-- Initialize: scripts/initialize.py and scripts/prepare_shell.py. The pins of upstream.lock.json, the
--   random tokens and whether the system is Windows are parameters.
-- Xrpl: deploy/idax-ledger/xrpl_health.py, the verdict and the exit status. The answers of the nodes and
--   two tests on floats are parameters.
-- Smoke: request of scripts/smoke.py. token and body are null where the call leaves them out, the
--   environment is read at each call.
-- E2e: the end-to-end scripts. A child module is a script, its main the script's; a nested function takes
--   the variables that it closes over as arguments, and a long function is split where its text has a
--   comment or a print. EconomicExchange, Marketplace, OrdinaryGovernance
--   and ConsentRetention are scripts/economic_exchange_e2e.py and so on by name, Audit is
--   audit_economic_commit_e2e.py and Ledger ledger_integration_e2e.py; References and Authority are the
--   community_ ones, ValueGovernance community_value_governance_e2e.py, MultiSource
--   multi_source_value_evidence_e2e.py, Independence and Uuid7 participant_independence_e2e.py,
--   SevenKeys market_integrity_e2e.py, Boundary governed_boundary_e2e.py, Isolation main of
--   multitenant.py, Listing main of smoke.py, Login make_login of marketplace_browser_smoke.py. Contained
--   below each says what the script may do to the machine, Safety says it of all of them.
--
-- In each part the file of its name holds the definitions, its children the proofs, and Tests the runs.
--
-- Not modelled: audit-public.py, backup_restore_e2e.py, webauthn_hardware_custody_e2e.py, the two
-- scripts on the community catalog, and the other scripts of deploy/idax-ledger/; the browser scripts,
-- which assert on what a browser shows; the shell scripts, compose files and patches. A signal that stops
-- a script, a full disk and the failure of a print are not modelled either, and paths are taken as they
-- are written.
pub mod Base
pub mod Host
pub mod Json
pub mod Py
pub mod Smoke
pub mod E2e
pub mod Probe
pub mod Compose
pub mod Proxy
pub mod Deploy
pub mod Restore
pub mod Status
pub mod Backup
pub mod Update
pub mod Initialize
pub mod Xrpl
