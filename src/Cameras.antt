-- ===== src/Cameras.antt =====
-- backend/src/services/camera and backend/src/utils/ffmpeg.py: the inventory of cameras.
pub mod Listing
pub mod Urls
pub mod Service
