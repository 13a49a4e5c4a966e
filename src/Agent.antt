-- ===== src/Agent.antt =====
-- ylars_lb_agent: the load-balancing agent that runs beside a program's processes.
pub mod HostInfo
pub mod LoadBalance
pub mod RouteLb
pub mod Server
pub mod Clients
pub mod Pulls
