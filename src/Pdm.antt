-- ===== src/Pdm.antt =====
-- The kernel part of the framework (kernel/pdm and kernel/include/pdm): devices on the PDM bus,
-- their drivers and the registries.
pub mod Device
pub mod Ids
pub mod Bus
pub mod User
pub mod Manager
pub mod Registry
pub mod Module
pub mod Led
pub mod Mcu
pub mod Errors
