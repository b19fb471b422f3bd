-- ===== src/Providers.antt =====
-- The contract between the core and a backend: providers/environment.go, errors.go, conn.go,
-- capabilities.go and provider.go.
pub mod Errors
pub mod Environment
