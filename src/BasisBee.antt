-- ===== src/BasisBee.antt =====
-- security/basisbee/validator.go: the validator of uploaded BEE files, part by part.
pub mod Types
pub mod Frame
pub mod Pkcs7
pub mod Names
pub mod Connector
pub mod Json
pub mod Validator
pub mod Tests
