-- ===== src/Pipeline.antt =====
-- backend/src/opencv_pipeline: the edge pipeline from capture to identities.
pub mod Packets
pub mod SlotStore
pub mod FrameBuffer
pub mod Synchronizer
pub mod Identity
pub mod Boxes
pub mod IdentityStore
pub mod Runtime
