-- ===== src/Transport.antt =====
-- internal/transport/http.
pub mod Dto
pub mod Decode
pub mod Mapper
pub mod Server
