-- ===== src/Examples.antt =====
-- Runs of the modelled code on small inputs, and the theorems at inputs that meet their conditions.
mod Wire
mod Endpoint
mod Links
mod Stream
mod Threads
mod Polls
mod Urls
mod Transports
mod Logs
