-- ===== src/Api.antt =====
-- src/daemon/api: the tokens of the API.
pub mod Tokens
pub mod Requests
mod Tests
