-- ===== src/Host.antt =====
-- internal/hostctl: the firewall of the host, over SSH.
pub mod Parse
pub mod Client
