-- ===== src/Examples.antt =====
-- The theorems at concrete inputs, and tests of the definitions.
mod Samples
mod Matching
mod Naming
mod Stored
mod Runners
mod Passes
mod Removal
mod Serving
mod Polls
mod Calls
mod Hosts
mod Trees
mod Containers
mod Settings
mod Pages
mod Starting
