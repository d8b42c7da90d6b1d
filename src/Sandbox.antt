-- ===== src/Sandbox.antt =====
-- internal/scheduler/sandbox.go and ParseWASMCommand of internal/scheduler/wasm.go: what the first
-- gate of the sandbox lets pass. A text is the list of its code points.
pub mod Segments
pub mod Gates
pub mod Env
pub mod Passed
pub mod Named
mod Tests
