-- ===== src/Net.antt =====
-- The gateway's network: the egress policy (internal/netgw/egress.go), the resolver (dns.go), the
-- diverts (divert.go), and where a guest's connections go (forwarder.go).
mod Addr
mod Glob
mod ParseAddr
mod Policy
mod Pins
mod Divert
mod Resolver
mod Provenance
mod Gateway
mod Explained
mod Refresh
mod Steps
mod Reach
mod Forward
mod LinkLocal
mod Metadata
mod Usable
mod Quiet
mod Maps
mod Refined
mod Closed
mod Tests
