-- ===== src/Tests.antt =====
-- Runs of the model on small inputs, and the theorems at inputs that meet their hypotheses.
mod Sorting
mod Text
mod Searching
mod Connections
mod Queues
mod Machine
mod Indexing
mod Logging
mod Settings
mod Lives
mod Dispatching
mod Answers
mod Network
