-- ===== src/Redis/Command.antt =====
-- nc_redis.c: the commands that the request parser knows.
mod Entry
mod Short
mod Middle
mod Long
pub use Entry.*
pub use Short.*
pub use Middle.*
pub use Long.*
