-- ===== src/Tests.antt =====
-- The theorems at concrete inputs, and runs of the definitions.
mod Access
mod Restore
mod Limiter
mod Service
mod Doorman
mod Levels
mod Schedule
mod Sessions
mod TempBans
mod Recurring
mod Archives
