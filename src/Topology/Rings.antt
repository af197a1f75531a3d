-- ===== src/Topology/Rings.antt =====
-- The rings of neighbours, of the hosts and within a host.
