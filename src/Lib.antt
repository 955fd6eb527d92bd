-- ===== src/Lib.antt =====
-- A model of the parts of nazman, a web application that manages ZFS storage and its backups,
-- that decide what is written, kept and destroyed. Paths are from the root of the repository.
--
-- BackupGroup models nazman/services/backup_group_service.py over the tables of
-- nazman/models/backup_zfs.py. Rows has the tables, Tables the lookups and queries, Sets and
-- Disks the operations on a group's sets and their disks, Groups those on groups and datasets,
-- Crons the reconciliation of their schedules with the tasks of Scheduler, Starts the start of a
-- session and the recovery after a restart, Cycle the rotation (_active_set, _target_sets,
-- _rotate), and Session the run of a session (_execute_session, _write_one_set and their
-- helpers). A method is a function from the tables to a result and the tables, in
-- Prelude/Effects: what was written before an exception stays written. A session keeps the
-- objects of its own group in a context and calls the ZFS backup manager through the interface
-- Media, whose answers are arbitrary. Session's children Media, Writes, Execute and Finish hold
-- its code from that interface outward, the others what is proved of it.
--
-- ZfsBackup models the part of nazman/managers/zfs_backup_manager.py behind that interface:
-- Anchors the snapshots that a chain builds on and their pruning, Stream the method
-- backup_dataset, Recording what it leaves on its volume beside the stream. Commands on the pool
-- and the disk are the parameters Pool and Target.
--
-- Destruction models nazman/services/destruction.py with a log of the changes it asks of the
-- system, Scheduler models nazman/managers/scheduler.py with its tasks, jobs and history, and
-- Validation the names and schedules of nazman/utils/validation.py, which the other parts call.
--
-- Notifications models nazman/utils/notification_store.py, the circular journal of
-- notifications, with a step relation for its calls.
--
-- Alerts models the notify of nazman/managers/alert_manager.py with its cooldown; it writes to
-- that journal. Its poll of the pools is not modelled.
--
-- Manifest models nazman/utils/backup_manifest.py, the index and the sidecars that a backup
-- volume carries. Restore models nazman/services/system_restore.py on top of it: Volumes the
-- mounts and the scan of the attached volumes, Located where a stream is found, Merge the union of their manifests, Chain the
-- choice of datasets and of the streams to replay, Mapping the plan that puts attached disks in
-- the slots of a recorded pool, Adoption the declaration of the volumes as backup disks, Job the
-- progress that is published, and Replay the restore itself, with the method receive_stream of
-- the ZFS backup manager. Mounts, files and receives are the interface Outside.
--
-- Prelude has the tests on numbers, lists and texts, the sort, the positions of elements in
-- lists, lists with unique keys, and the effects. Numbers are natural numbers; the program's
-- integers have no bound. Every loop of the models is a structural recursion over a list that
-- the source iterates, so no fuel is needed; only the decimal text of a number is written with a
-- count of digits to go, the number itself, which has fewer. A time is a number, a message a constructor. Where
-- the source parses the output of a command, the model starts from its lines.
--
-- Not modelled: the HTTP interface, the views, metrics, shares and the search for restore
-- candidates. The tables are changed by one call at a time, as each
-- runs between two awaits or under the lock of its group.
pub mod Alerts
pub mod BackupGroup
pub mod Destruction
pub mod Manifest
pub mod Notifications
pub mod Prelude
pub mod Restore
pub mod Scheduler
pub mod Validation
pub mod ZfsBackup
