-- ===== src/Witness.antt =====
-- The theorems at concrete inputs, and runs of the model.
mod Samples
mod Persistence
mod Calls
mod Passes
mod Sessions
mod Gateway
mod Streams
mod Users
mod Passwords
