-- ===== src/Restore.antt =====
-- app/restore_worker.py, the restoring of a backup archive by the container mc-restore:
-- `Machine` the disk and its faults, `Transaction` the phases and the recovery, `Tree` the
-- copying of directories, `Controller` the containers that are stopped and started.
pub mod Machine
pub mod Transaction
