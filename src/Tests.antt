-- ===== src/Tests.antt =====
-- Concrete runs of the model, and the theorems at them.
mod Archiving
mod Calling
mod Configuring
mod Exporting
mod Fetching
mod Guarding
mod Limiting
mod Merging
mod Pairing
mod Pinging
mod Reading
mod Relaying
mod Scrubbing
mod Sending
mod Vaulting
mod Vouching
mod Walking
mod Writing
