-- ===== src/Tests.antt =====
-- Concrete runs, and the theorems at concrete inputs.
mod Caches
mod Stores
mod Buses
mod Policies
mod Clocks
mod Configs
mod Sizes
mod Demos
mod Lfus
mod Parameters
mod Durations
mod Counters
