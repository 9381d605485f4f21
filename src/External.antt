-- ===== src/External.antt =====
-- What the program uses and does not implement: parameters of the model.
pub mod Float
pub mod Postgres
pub mod Uuid
pub mod Redis
pub mod TimeText
pub mod SeedText
pub mod Jwt
