-- ===== src/Tests.antt =====
-- Small inputs at which the theorems apply, and runs of the definitions on them.
mod Wire
mod Daemon
mod Loop
mod Tables
mod Lifecycle
mod Remote
mod FileSync
mod Services
mod Sweep
mod Listeners
mod Orderly
mod Usb
mod Trackers
