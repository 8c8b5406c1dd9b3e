-- ===== src/Tests.antt =====
-- The theorems at concrete inputs, and runs of the code.
mod Chains
mod Client
mod Commands
mod Connections
mod FilterEnds
mod Contexts
mod Handlers
mod Objects
mod Events
mod Hosts
mod Listening
mod Logging
mod Processes
mod Queries
mod Requests
mod Startup
