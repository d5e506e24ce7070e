-- ===== src/LoadBalance.antt =====
-- capabilities/loadbalance: the balancers that choose an instance of a service.
pub mod RoundRobin
pub mod Weighted
