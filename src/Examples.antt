-- ===== src/Examples.antt =====
-- Concrete inputs, on which the theorems of the modules are applied.
mod Pings
mod NodePings
mod Receipts
mod Retries
mod Witnesses
mod Policies
mod PolicyWitnesses
mod Nodes
mod Registry
