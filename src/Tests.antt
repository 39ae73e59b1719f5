-- ===== src/Tests.antt =====
-- Small programs, and the theorems at concrete inputs.
mod Programs
mod Witnesses
mod CallWitnesses
mod RunWitnesses
mod SoundWitnesses
mod NetWitnesses
mod MainWitnesses
mod DebugWitnesses
mod FollowWitnesses
mod FileWitnesses
