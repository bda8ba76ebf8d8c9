-- ===== src/Examples.antt =====
-- Concrete runs of the models, and the theorems at concrete inputs: a small kernel with a device
-- behind it, a C caller with some memory, and documents.
mod Platform
mod Transport
mod Calls
mod Bank
mod Hardware
mod Threads
mod Orders
mod Pairs
mod Programs
mod Samples
mod Stacked
mod Sessions
mod Headers
mod Documents
