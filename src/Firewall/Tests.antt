-- ===== src/Firewall/Tests.antt =====
-- The firewall manager at work on a small host.
mod Toy
mod Witnesses
mod Expiries
mod Edits
mod Restarts
