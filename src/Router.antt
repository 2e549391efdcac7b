-- ===== src/Router.antt =====
-- src/network/router: which worker a message goes to.
pub mod Entities
pub mod Services
