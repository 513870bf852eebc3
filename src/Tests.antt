-- ===== src/Tests.antt =====
-- Examples of the theorems, in a world that answers every call.
mod Outside
mod Files
mod Backups
mod Passes
mod Renewals
mod FreshPass
mod DryPass
mod Undone
mod ValidPass
mod Rollbacks
mod Probes
mod Summaries
mod Kubeconfigs
mod Restorations
mod Writes
mod Waits
mod Starts
