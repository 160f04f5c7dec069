-- ===== src/Buffer.antt =====
-- nc_mbuf.c and the parts of nc_message.c that move bytes: the buffers of a message.
pub mod Mbuf
pub mod Content
pub mod Message
pub mod Append
pub mod Adds
pub mod Divide
pub mod Send
mod Tests
