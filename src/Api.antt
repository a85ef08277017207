-- ===== src/Api.antt =====
-- api/v1alpha1: the custom resources, their defaults and their status.
pub mod Status
pub mod Persistence
pub mod Defaults
pub mod ValidateSentinel
pub mod ValidateStandalone
pub mod Types
pub mod Views
