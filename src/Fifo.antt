-- ===== src/Fifo.antt =====
-- src/fifo.c: a queue of pointers as a singly linked list, over a store of fifos and elements.
-- `Store` is the memory, `Ops`, `Walk` and `Bulk` are the functions, `Segment` says which lists the
-- elements of a store form, and the other modules say what each function does to them.
mod Examples
pub mod Bulk
pub mod Cursor
pub mod Remove
pub mod Ends
pub mod Front
pub mod Iterate
pub mod Queue
pub mod Ops
pub mod Segment
pub mod Start
pub mod Store
pub mod Walk
