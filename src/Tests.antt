-- ===== src/Tests.antt =====
-- The theorems at concrete inputs.
mod Inference
mod Results
mod Buffers
mod Pipeline
mod Presentation
mod Services
mod Runtime
mod Server
mod Cameras
