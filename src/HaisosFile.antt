-- ===== src/HaisosFile.antt =====
-- src/haisos/HaisosFileParser.cpp: the manifest that an OS is started from.
pub mod Text
pub mod Tokens
pub mod Content
pub mod Config
pub mod Settings
pub mod Files
pub mod Results
pub mod Parse
pub mod Valid
pub mod Order
pub mod Spelling
mod Examples
