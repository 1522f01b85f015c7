-- ===== src/Tests.antt =====
-- Runs of the model at concrete inputs, with one instance of each interface.
mod Samples
mod Pods
mod Runtime
mod Routes
mod Workers
mod Watched
mod Overtaken
mod Owners
mod Requests
mod One
mod Commands
mod Imports
mod Building
mod Environment
mod Calls
mod Interleaved
mod Lifetimes
mod Crowds
