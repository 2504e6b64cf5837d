-- ===== src/ControlPlane.antt =====
-- The cycles of the control plane over the queue (packages/control-plane-runtime/src).
pub mod Shared
pub mod Adapter
pub mod Cycle
pub mod Messages
pub mod Recovery
pub mod Research
pub mod Scheduler
pub mod Dispatcher
mod Tests
