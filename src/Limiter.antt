-- ===== src/Limiter.antt =====
-- app/api/login_security.py, class `LoginAttemptLimiter`: the limits on login attempts.
-- `Buckets` is the counting for one key, `Attempts` the methods, their children the proofs.
pub mod Buckets
pub mod Keys
pub mod Attempts
pub mod Addresses
