-- ===== src/Tests.antt =====
-- Concrete inputs: a data-api and a pipeline small enough to run the code against, and the theorems
-- applied to them.
pub mod World
pub mod Retry
pub mod Api
pub mod Decode
pub mod Runner
pub mod Session
pub mod Units
pub mod EventLoop
pub mod Bus
pub mod Config
pub mod Whisper
pub mod Boot
pub mod Agreement
pub mod Clearing
