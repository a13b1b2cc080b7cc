-- ===== src/Network.antt =====
-- mtapi_network_c: the plugin that runs actions on another node over a network.
pub mod Buffer
pub mod Socket
pub mod Plugin
mod Samples
