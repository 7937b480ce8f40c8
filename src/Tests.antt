-- ===== src/Tests.antt =====
-- Runs of the model: the tests of the source, and each theorem at a concrete input.
mod Data
mod Codec
mod Sockets
mod Histogram
mod Seqlock
mod Pins
mod Clients
mod Calls
mod Streams
mod Threads
mod Interleave
mod Startup
mod Outside
mod Path
