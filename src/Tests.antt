-- ===== src/Tests.antt =====
-- Every theorem about the code, applied to an input that exercises it.
mod Channels
mod Ciphers
mod Flow
mod Muxes
mod Negotiation
mod Wires
mod Agents
mod Servers
mod Terminals
mod Transports
mod Handshakes
mod Hosts
mod Certs
