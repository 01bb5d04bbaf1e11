-- ===== src/Driver.antt =====
-- driver/linber_main.c: the module's state and its operations, one module for each part.
pub mod Kernel
pub mod Params
pub mod Pending
pub mod Quiet
pub mod Lifecycle
pub mod Workers
pub mod Dispatch
pub mod Client
pub mod Jobs
pub mod Steps
pub mod Exchange
pub mod Status
pub mod System
pub mod Ioctl
pub mod Module
pub mod DeviceFile
pub mod Tests
