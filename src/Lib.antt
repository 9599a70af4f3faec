-- ===== src/Lib.antt =====
-- bypass_keenetic: the parts of the router program that keep its state consistent.
--
-- Parts and files. Paths are from the repository's root.
--
-- * Coordinator/ models app/proxy_apply_coordinator.py, class ApplyCoordinator. `World` is what
--   one thread of one process sees: intent.json, its own depth in apply.lock and intent.lock, and
--   the thread-local context. `Intents` has _state, capture, generation, token, cancel_manual,
--   request_manual, current, require_current and recover_abandoned_manual; `Scopes` has the context
--   managers commit_guard, transaction, intent and mutation, each over an arbitrary block, and
--   active_ticket. A lock that another holder keeps beyond the timeout is the field `blocked`. What
--   other threads and processes do in between is a list of `Event`s in `Staleness`, each the code of
--   the step run by another thread. A write succeeds, or raises before or after os.replace. The kernel lock, the clock and fork are not modelled: a blocking
--   acquire either succeeds or times out. A file without the key 'pending_manual', which the code
--   never writes, is read as one with null.
--
-- * Bundle/ models app/proxy_apply_state.py, class ApplyFileBundle. `Disk` has the targets and the
--   journal; every write takes a fault: it succeeds, raises before the change, or raises after it.
--   A crash leaves what such an exception leaves, so crashes are covered by the same lists. Base64
--   and JSON are not modelled: a journal is a record, or unreadable. hashlib's digest is a
--   parameter.
--
-- * KeyPool/ models app/key_pool_store.py with the tables of app/protocol_catalog.py. `Pools` is the
--   dict from protocol to list of keys; a key is its text (values that are not texts are not modelled),
--   and a text of several keys is the list of its lines. urlsplit is a parameter that gives the
--   scheme. `Storage` has the file of the pools and its copy, as JSON values or unreadable, and writes
--   that fail before or after os.replace. `Candidates` has failover_candidates: an entry of the cache is a
--   `Probe`, with numbers from 0 on, and of a rate of errors what the code reads of it. `Subscription` has
--   the keys of subscriptions; urlsplit, unquote, casefold and the name in a vmess key are parameters.
--
-- * Failover/ models required_route_recovery and RouteRecoveryGate of app/failover_services.py. Times
--   are whole seconds. The injected calls of the former are a `Tick`: what each returns, or that it
--   raises; the calls made are part of the result. The lock of the gate makes each call one step.
--
-- * WebCommand/ models app/web_command_state.py: the state of the command that the page shows, its
--   progress, the reports of an update, and rendering. Times are whole seconds, 0 where none is set.
--   The estimate of the progress is a parameter; flash messages are not modelled.
--
-- * Switch/ models app/youtube_failover_transaction.py: the record of a change of the YouTube key, its
--   normalization, its phases and its file. A file holds a JSON object, something else, or is not
--   there; a write reaches os.replace or it does not. `str.lower` changes the letters A to Z only.
--   Times are whole seconds, 0 where none is set.
--
-- * Update/ models app/update_status.py: the status file of an update, and how a report of it changes the
--   state of WebCommand/ and the job file. A write fails or it does not; each call is one step.
--
-- * Auth/ models app/telegram_auth_state.py: the users that the settings name, the decision on a message,
--   and the menu states of the chats. str.casefold and int are parameters; an id is its decimal text. The
--   trimming loop has as many rounds of fuel as there are states, which is enough.
--
-- * Owner/ models app/youtube_route_owner.py, with normalize_route_entry and service_route_entries of
--   app/service_catalog.py. The table of services is a parameter: `Source` is the row of YouTube. The files
--   of the routes are their lines by name, and the state file is the text that it holds, or unreadable.
--
-- * Probes/ models app/pool_probe_resume.py: the saved payload of a probe, its tasks and the keys that they
--   name. hash_key is a parameter, as it is of the code. The custom checks of a payload are not modelled.
--
-- * Plan/ models app/proxy_apply_plan.py and app/proxy_apply_attestation.py. A configuration is a JSON value
--   (Json), whose canonical text is stood for by the value with sorted keys; SHA-256 is the parameter
--   `digest`. Config has _validate_config, Change classify_config_change, Action plan_proxy_apply and
--   Receipts the store; History has the sequences of its calls. Times are natural numbers. An argument of
--   a wrong type is `none`. The file of the store holds a state or none: what _read refuses counts as none. A
--   write of it succeeds or leaves the file as it was; the failure after os.replace, of the directory's
--   fsync, is not modelled here.
--
-- * Screening/ models check_required, record_required and recent_failure of app/failover_services.py, and
--   of app/probe_cache.py what update_key_probe_cache_entry does with the results of custom checks. The
--   calls that check_required is given, the clock, check_youtube_through_proxy and the test
--   is_transient_status_text are fields of `Calls` over a state of the outside; a loop over attempts, URLs,
--   services or checks is a recursion on what is left of it. Its times are natural numbers of milliseconds,
--   those of the entries natural numbers of seconds.
--
-- * Events/ models app/event_history.py for one path: Log has record_event from the test of the action on, with
--   the event that it has prepared, _event_is_recent_duplicate and _trim_history; Duration has
--   estimate_update_duration over the events that load_events returns. `dumps` is json.dumps, `size` the size of a
--   file with these lines, `lower` str.lower; times are natural numbers.
--
-- * Jobs/ models start_background_command of app/telegram_jobs.py: the job file and the processes
--   started; and how a job ends: run_worker of app/system_command_runtime.py removes the file, and
--   sync_web_command_state of app/update_status.py clears its flag. The read, the test and the write of
--   one call are one step: the code takes no lock, and calls that overlap are not modelled. The texts
--   that go into the child process are not modelled.
--
-- * Modes/ models app/app_runtime_mode.py: the mode file, the autostart of the bot, whose write by
--   _save_bot_autostart of app/bot.py may fail unseen, and the scheduled restart. The configured default
--   of the mode is a parameter. The messages and the delay of the page's reload, and the caches that are dropped, are not
--   modelled; a save works, fails when the file is opened, or leaves it empty.
--
-- * Routes/ models app/transparent_route_policy.py. A rule is its kind and its host; `matches` says
--   which hosts Xray takes for a rule. The trie of the program is `Node`, with masks as lists of bits,
--   and a host is read from its last label on. ipaddress and urlparse are parameters. A line of a list
--   holds no line break. The set of requested protocols of compile_protocol_policies is given as a list.
--
-- Not modelled: the bot's and the web server's loops and pages, the installer and shell scripts, the
-- probes over the network, the generators of Xray's configuration, the diagnostics of routes, and the redaction and
-- display of events.
pub mod Auth
pub mod Bundle
pub mod Coordinator
pub mod Events
pub mod Failover
pub mod Jobs
pub mod KeyPool
pub mod Modes
pub mod Owner
pub mod Plan
pub mod Prelude
pub mod Probes
pub mod Routes
pub mod Screening
pub mod Switch
pub mod Update
pub mod WebCommand
