-- ===== src/Lib.antt =====
-- The Xray VPS manager: what it does to the configuration of Xray and to its own state.
--
-- The program is a set of commands for one server. Each command reads config.json of Xray and the
-- client database, edits them, and applies the result: the new configuration is checked, tested by
-- the xray binary, written, and the service is restarted, with the old file taken back where that
-- fails. The edits are those of four parts that share the lists of outbounds, rules and balancers:
-- cascades (the upstream servers and the catch-all route), client routes (one rule and one balancer
-- for each client), the block list, and the bypass routes of one country.
--
-- Files, and the code that each is about:
--   Json, Json/*                   JSON values and Python's operations on dict, list and str
--   Xray/Config                    the sections of config.json that the edits touch (`routing_rules`)
--   Xray/Cascade, Cascade/*        xray_vps_manager/xray/cascade.py
--   Xray/ClientRoutes and below    xray_vps_manager/xray/client_routes.py
--   Xray/Blocklist, Blocklist/*    xray_vps_manager/xray/blocklist.py
--   Xray/Bypass, Bypass/*          xray_vps_manager/xray/bypass.py
--   Xray/Invariants, Invariants/*  xray_vps_manager/xray/invariants.py
--   Xray/Apply, Apply/*            xray_vps_manager/xray/apply.py
--   Xray/Tests/*                   the examples at concrete configurations
--   Clients/Email, Email/*         xray_vps_manager/clients/models.py
--   Clients/Access, Access/*       xray_vps_manager/clients/access.py
--   Clients/Limits, Limits/*       xray_vps_manager/clients/limits.py
--   Clients/Entry                  xray_vps_manager/clients/models.py
--   Clients/Credentials, below     xray_vps_manager/clients/credentials.py
--   Clients/Status, Status/*       xray_vps_manager/clients/status.py, limits.py
--   Xray/Transport, Transport/*    xray_vps_manager/xray/config.py (17-87, 262-722)
--   Xray/Inbounds, Inbounds/*      xray_vps_manager/xray/config.py
--   Activity/Protobuf, below        xray_vps_manager/activity/parser.py
--   Activity/ErrorEvents            xray_vps_manager/db/repositories/activity.py
--   Activity/ErrorLog, below        xray_vps_manager/activity/raw_logs.py
--   Telegram/Updates, Updates/*    settings.py and poller.py of xray_vps_manager/telegram
--   Core/Fs, Fs/*                  xray_vps_manager/core/fs.py
--   Core/Locks, Locks/*            xray_vps_manager/core/locks.py
--   Traffic/Period, Period/*       xray_vps_manager/traffic/history.py, clients/limits.py
--   Traffic/History, Entry         history.py, repository.py and consistency.py of
--                                  xray_vps_manager/traffic
--   Traffic/Repair, Repair/*       xray_vps_manager/traffic/consistency.py
--   Traffic/Sync, Sync/*           xray_vps_manager/commands/traffic_sync.py
--   Activity, Clients, Core, Telegram and
--   Traffic/Tests                  examples
--   Base/*                         tests on numbers and texts, lists, sorting, association lists
--
-- State. A configuration is a record of the sections that the edits use; a section that is missing
-- is `none`, and what Python's `setdefault` adds is written out. An outbound, a rule or a balancer is
-- a JSON object, an association list in the order of insertion, since the program reads and keeps
-- any key. A function that edits the configuration in place takes it and returns the new one, with
-- the flag that the code returns; an exception that the function raises itself is `none`.
--
-- Application of a configuration works on `Disk`: the live file, the candidate, the numbered copies,
-- and the content that the running service was started with. Each call of the outside (validation,
-- write, test, restart, read) has its answer in `Events`, so that one run is one choice of answers,
-- and a theorem over all events is one over all combinations of failures, Ctrl-C among them.
--
-- Files and directories. Each call of the system takes one answer from a list: it succeeds, raises or
-- is the last one before the process is killed, with none, a part or all of its effect. A run of
-- `replace_directory` or `replace_file` is thereby a run with failures at any calls.
--
-- Locks. The state is the holder of the main lock, the registered owners and the phase of each
-- process; a step is one action of one process, and every order of steps is a run.
--
-- Traffic. An entry is a record of the fields that the sync uses; the keys of its history are the
-- texts of days and hours. A run of the sync knows the counters that Xray showed. A restart of Xray
-- sets its counters to zero, and the sync takes a counter that has become lower for a restart.
--
-- Fuel. The loop of `backup_path` is given one more than the number of copies, and each step passes
-- a copy that is not passed again; that of `parse_proto_fields` is given the number of bytes, and
-- each round reads one at least.
--
-- Clients. An entry is a record of the fields that the code reads, its credentials a list by
-- connection. A change of an inbound in place is a change of the one that `find_inbound_by_tag`
-- returns, so that inbounds with the same tag are told apart as the code tells them apart.
--
-- Telegram updates. The state is the part of `clientSubscriptionState` about the offset, a reader
-- has a snapshot of it, and a claim is one transaction; every order of claims is a run.
--
-- Error log. An action is an append of bytes by Xray, a new file in the place of the log, a run
-- that reads, with what is appended between its `stat` and its `read`, or a run that fails. The
-- table of events keeps one row for each key, with a count.
--
-- Transports. Settings are JSON values; a number is the text that Python prints for it, so that the
-- normal form of a number or of a range is a text too.
--
-- Parameters. Python's `lower` and `upper` on all of Unicode, and the emails of a client (they
-- come from the database), are arguments of the definitions that use them, and so are the readers
-- of dates and times (`datetime.fromisoformat`), which number the days and the instants, the texts
-- of the time of a run (`isoformat`, `strftime`), and the
-- digest of an update (SHA-256), the decoding of bytes and its `splitlines`, of which the law at
-- the end of a line is a hypothesis, and the parser of a line of the error log.
--
-- Not modelled: outside Xray/Invariants, values of the wrong type where the code would raise (a
-- rule that is no object); the sharing of objects between lists (the code copies deeply where it
-- matters); the database, the dialogues and messages of the Telegram bot, the installation scripts.
mod Base
pub mod Activity
pub mod Clients
pub mod Core
pub mod Json
pub mod Telegram
pub mod Traffic
pub mod Xray
