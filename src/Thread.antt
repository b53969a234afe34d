-- ===== src/Thread.antt =====
-- src/thread.c: threads in a context, with what pthreads answers to each call as a parameter.
mod System
mod Ops
mod Chain
mod Timeout
mod Signals
mod Setup
mod Examples
mod Signal
mod Locks
mod Join
mod Track
mod Create
mod Destroy
