-- ===== src/Plant.antt =====
-- control_core/base_infrastructure_core.py, jammer_targeting_system.py: the shore plant's actuators
-- and the allocation of idle mounts to a located jammer.
pub mod Infrastructure
pub mod Facility
pub mod Jammer
pub mod Suppression
