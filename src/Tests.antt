-- ===== src/Tests.antt =====
-- Concrete states on which the theorems are applied.
mod Data
mod Scheduling
mod Memory
mod Processes
mod Devices
mod Disk
mod Input
mod Content
mod Cache
mod Forking
