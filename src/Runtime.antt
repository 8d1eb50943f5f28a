-- ===== src/Runtime.antt =====
-- Runtime processing for the service manager (src/manager/runtime/imp/*.rs).
pub mod Restart
pub mod Notify
pub mod Exit
pub mod Oneshot
