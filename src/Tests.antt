-- ===== src/Tests.antt =====
-- Runs of the modelled code at concrete inputs, and the theorems applied to such inputs.
mod Serialization
mod MerkleTrees
mod Filters
mod Rules
mod Scripts
mod Messages
mod Trees
mod Requests
mod Pool
mod Targets
