-- ===== src/Server/Noop.antt =====
-- cmd/cache-server/main_test_helpers.go: the filter of the tests, a set of keys.
use cachecore.Base.{Bool, [], none, is_some}
use cachecore.Filter.{FilterOps}
use cachecore.Go.Bytes.{Key}
use cachecore.Go.Map.{Map, lookup, insert, delete}

-- The keys of `data`.
pub record NoopFilter : Type 0 where
  pub items : Map (Unit {0})

unfoldable pub new_noop_filter : NoopFilter
new_noop_filter = record { items = [] }

unfoldable pub add : NoopFilter → Key → NoopFilter
unfolding insert
add f item = record f { items = insert item tt f.items }

unfoldable pub contains : NoopFilter → Key → Bool
unfolding lookup
contains f item = is_some (lookup item f.items)

unfoldable pub remove : NoopFilter → Key → NoopFilter
unfolding delete
remove f item = record f { items = delete item f.items }

instance unfoldable pub noop_FilterOps : FilterOps NoopFilter
unfolding add contains
noop_FilterOps = record { add_item = add; contains_item = contains; reset_items = none }
