-- ===== src/Dns.antt =====
-- ylars_dns: the service that knows the hosts of each module and tells its subscribers of changes.
pub mod Subscribe
pub mod Router
pub mod Service
