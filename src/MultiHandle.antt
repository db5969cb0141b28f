-- ===== src/MultiHandle.antt =====
-- gst/tcp/gstmultihandlesink.c and .h.
pub mod Types
pub mod Keyframe
pub mod Limits
pub mod Position
pub mod Class
pub mod Store
pub mod Clients
pub mod Queue
pub mod Properties
