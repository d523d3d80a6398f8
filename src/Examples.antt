-- ===== src/Examples.antt =====
-- The theorems at concrete inputs.
mod Departures
mod Lives
mod Hex
mod Sample
mod Signing
mod Transfers
mod Requests
mod Clients
mod Web
mod Processes
mod Broadcasts
mod Journals
mod Database
mod Servers
mod Submissions
mod Failures
mod Front
