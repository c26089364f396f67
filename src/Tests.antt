-- ===== src/Tests.antt =====
-- The theorems at concrete inputs, by component.
mod Streams
mod Wire
mod Interfaces
mod Adapters
mod Reassembly
mod Receiving
mod Sending
mod Connecting
mod Routing
mod Machine
mod Looping
mod Opening
mod Posting
mod Copying
mod Lab
mod Simulated
