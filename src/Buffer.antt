-- ===== src/Buffer.antt =====
-- The frame buffers: src/app/buffer/ports/frame-buffer.hpp and the two implementations in
-- src/domain/buffer/services. A method runs under the buffer's mutex, so it is one atomic step.
pub mod Port
pub mod Ring
pub mod Slot
