-- ===== src/Notify.antt =====
-- src/notify: channel keys and the subscription registry; src/service/mtdd_notify_service.cpp.
pub mod ChannelKey
pub mod Index
pub mod Registry
pub mod Service
mod Tests
