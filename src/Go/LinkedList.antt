-- ===== src/Go/LinkedList.antt =====
-- container/list: a list of elements, front first. An element has an identity, which stands for
-- the pointer `*list.Element`, and the pointer is followed by `value_of`.
pub mod Keyed
pub mod Order
unfoldable pub use Keyed.*
pub use Order.*
pub mod Defs
unfoldable pub use Defs.*
