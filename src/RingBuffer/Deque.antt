-- ===== src/RingBuffer/Deque.antt =====
-- A valid ring buffer behaves as a bounded deque of bytes.
mod PushBack
mod PopBack
mod PushFront
mod PopFront
pub use PushBack.*
pub use PopBack.*
pub use PushFront.*
pub use PopFront.*
