-- ===== src/App.antt =====
-- main/app_main.cpp: the tasks, and what they share.
pub mod Setup
pub mod Started
pub mod Globals
pub mod Boot
pub mod Capture
pub mod Recording
pub mod Heard
pub mod Keyword
pub mod Outcome
pub mod Round
pub mod Requests
pub mod Kept
pub mod Placeholder
pub mod KwsTask
pub mod MetricsTask
pub mod Silence
pub mod Tasks
pub mod Streaming
pub mod Session
pub mod Ends
pub mod Wire
pub mod PreRoll
pub mod SessionBytes
pub mod WholeSession
pub mod StreamingTask
pub mod Sessions
pub mod Firmware
pub mod SessionMessages
mod Tests
mod KeywordTests
mod WireTests
mod SessionsTests
mod StartedTests
mod BootTests
mod KwsTaskTests
mod CaptureTests
