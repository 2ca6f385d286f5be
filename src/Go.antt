-- ===== src/Go.antt =====
-- What the program uses of Go itself: machine integers, strings, maps and the doubly linked lists
-- of container/list.
pub mod Int64
pub mod Bytes
pub mod Map
pub mod LinkedList
pub mod Hash
pub mod IntMap
pub mod Strconv
pub mod Numbers
