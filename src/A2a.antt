-- ===== src/A2a.antt =====
-- internal/a2a: the A2A server, its tasks, skills, handlers and the streaming executor.
pub mod Task
pub mod Skills
pub mod Handlers
pub mod Auth
pub mod Keys
pub mod Transitions
pub mod Quiet
pub mod Sending
pub mod Touching
pub mod Lasting
pub mod Refusing
pub mod Streaming
pub mod Dispatch
pub mod Subscribing
pub mod Fitting
