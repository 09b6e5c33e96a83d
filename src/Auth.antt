-- ===== src/Auth.antt =====
-- backend/app/services/auth.py, with the revocations of services/user_admin.py and
-- services/twofa.py. Model holds the tables, Login the verification of credentials with its
-- lockout, Tokens the refresh tokens, Rotate their rotation and replay, Account the other
-- operations on an account; the other children prove, and Tests runs them.
pub mod Model
pub mod Login
pub mod Tokens
pub mod Rotate
pub mod Replay
mod ReplayLimits
mod ReplayBudget
pub mod Account
pub mod Register
pub mod Lockout
pub mod Family
mod Once
pub mod Password
mod Tests
mod ReplayTests
