-- ===== src/Player.antt =====
-- projects/龙卷风播放器, a media player: its queues and pools, its clocks, and its decoder.
pub mod MemoryPool
pub mod Decoder
pub mod ByteRing
pub mod RingBuffer
pub mod SharedPool
pub mod AudioThread
pub mod RenderThread
pub mod PauseElapsedTimer
pub mod Window
