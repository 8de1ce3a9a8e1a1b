-- ===== src/Tests.antt =====
-- Runs of the models on concrete inputs, and applications of the theorems to them.
mod Parsing
mod Queues
mod Timing
mod Requesting
mod Naming
mod Heading
mod Connecting
mod Writing
mod Subscribing
