-- ===== src/Inference.antt =====
-- backend/src/services/inference: the inference plane.
pub mod Contracts
pub mod TemporalBuffer
pub mod LatestQueue
pub mod Scheduler
pub mod Decision
pub mod BatchBuilder
pub mod Scores
pub mod Delivery
pub mod Orchestrator
pub mod Manager
pub mod Ingress
pub mod Triton
