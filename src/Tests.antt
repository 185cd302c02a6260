-- ===== src/Tests.antt =====
-- Runs of the modelled functions on small inputs, and the theorems at concrete inputs.
mod Listeners
mod Backends
mod Races
mod Targets
mod Starting
mod Conditions
mod Forwarding
mod Live
mod Loading
mod Program
mod Whole
mod Certificates
mod Hooks
mod Builds
mod Machines
mod Queues
mod Suites
mod Lifetimes
mod Urls
