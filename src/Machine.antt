-- ===== src/Machine.antt =====
-- src/modal_registry.cpp and src/machine_profile.cpp: the machine profile and the modal groups.
pub mod Profile
pub mod Registry
pub mod Blocks
