-- ===== src/Xml.antt =====
-- XML as the provider reads and writes it: rundeck/util.go and the (un)marshalling methods of
-- rundeck/job.go.
pub mod Tokens
pub mod Maps
pub mod Attributes
pub mod Configs
pub mod Arguments
