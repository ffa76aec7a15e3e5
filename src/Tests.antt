-- ===== src/Tests.antt =====
-- The components' theorems on concrete inputs.
mod Data
mod Running
mod Storing
mod Background
mod Serving
mod Spaces
mod Comments
mod Calls
mod Wired
mod Streams
mod Upkeep
mod Passes
mod Slots
mod Opening
