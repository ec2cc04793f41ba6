-- ===== src/Tests.antt =====
-- Runs of the modelled functions, and the theorems at concrete values.
mod Runtime
mod Policy
mod Store
mod Automation
mod Chat
mod Workers
mod Service
mod Config
mod Provider
mod Tools
mod Telemetry
mod Web
mod Console
mod Startup
