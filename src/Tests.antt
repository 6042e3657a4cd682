-- ===== src/Tests.antt =====
-- Runs at concrete inputs, and the theorems at inputs that meet their hypotheses.
mod Fields
mod Parsing
mod Responses
mod Paths
mod Routes
mod Buffers
mod Serving
mod Workers
mod Sums
mod Fuzzing
mod Files
mod Apps
mod Loads
