-- ===== src/Tests.antt =====
-- Tests and concrete instances.
mod Cache
mod Parsing
mod Search
mod Collector
mod Upload
mod Store
mod Build
mod Manager
