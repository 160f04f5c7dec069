-- ===== src/Pipe.antt =====
-- The request pipeline: nc_request.c, nc_response.c and the connection handling of nc_server.c.
pub mod State
pub mod Queue
pub mod Done
pub mod Request
pub mod Response
pub mod Close
mod Tests
