-- ===== src/App.antt =====
-- sample_app/main.cpp: the list of running VMs with their debuggers, the callbacks of the VM, and the
-- order in which the program starts and stops its parts.
pub mod Vms
pub mod Removal
pub mod Lifecycle
pub mod Ends
pub mod Tests
