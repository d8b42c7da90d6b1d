-- ===== src/Gpu.antt =====
-- internal/gpu: the VRAM budget of one device, preemption, recovery and the thermal monitor.
pub mod Budget
pub mod Preempt
pub mod Recovery
pub mod Thermal
mod Tests
