-- ===== src/Teardown.antt =====
-- Network removal (internal/deinitnet): the bounded client of the Tailscale API that deletes a
-- device and takes the mesh's roles out of the tailnet's policy.
pub mod Failures
pub mod Json
pub mod Values
pub mod Policy
pub mod Roles
pub mod Additions
pub mod Client
pub mod Devices
pub mod Plan
