-- ===== src/Config.antt =====
-- pkg/server/config: the configuration's data and how its parts are read.
pub mod HostSpec
pub mod Value
pub mod Models
pub mod Merge
pub mod Loading
pub mod Certificates
pub mod CertificateMap
pub mod Urls
