-- ===== src/Tests/Api.antt =====
-- Calls of the API, and the theorem about its counters at concrete inputs.
use cachecore.Base.{ℕ, ◌+◌, ◌≡◌, refl, List, [], ◌∷◌, none, some, length}
use cachecore.Bloom.{BloomFilter}
use cachecore.Errors.{Answer, not_found, other, ok, err}
use cachecore.Filter.Admission.{bloom_FilterOps}
use cachecore.Go.Bytes.{Bytes, Key, codes, key_dec}
use cachecore.Go.Int64.{of_nat, slt}
use cachecore.Go.Numbers.{trim, skip_front, is_space, is_space2, is_space3, skip_back}
use cachecore.Group.{in_time}
use cachecore.Group.Caches.{store_CacheOps}
use cachecore.Http.Handler.{invalidate_path}
use cachecore.Server.Api.{Api, ApiRequest, ApiReply, http_error, Outside}
use cachecore.Server.Backend.{default_warmup_keys}
use cachecore.Server.Counts.{Counts, failures, failures_in, run, run-Counts}
use cachecore.Server.Setup.{pool_addresses}
use cachecore.Server.Text.{split_csv, normalize_http_addr}
use cachecore.Store
use cachecore.Store.{Store}
use cachecore.Tests.{a, b, v12, thousandths}
use cachecore.Tests.Groups.{group}
use cachecore.Tests.Peers.{network, plain_ProtoOps}

abbrev api : Api (Store ℕ) BloomFilter
api = record { group = group; api_requests = 5; api_errors = 1 }

abbrev asks_for : Key → Bytes → ApiRequest
asks_for key path = record { path = path; method = codes "GET"; key = key; delta = [] }

abbrev fetches : Answer Bytes → Outside
fetches answer = record {
  failure = none;
  course = in_time;
  fetched = answer;
  backend = none;
  random = 0;
  now = 5;
  later = 6;
  encode_error = none;
}

-- A key that is missing, one whose load fails, and an increment by GET.
abbrev calls : List (ApiRequest × Outside)
calls =
    (asks_for b (codes "/api"), fetches (err not_found))
    ∷ (asks_for b (codes "/api"), fetches (err (other (codes "down"))))
    ∷ (asks_for a (codes "/api/increment"), fetches (ok v12.b))
    ∷ []

abbrev replies : List ApiReply
replies =
    http_error 404 (codes "key not found")
    ∷ http_error 500 (codes "down")
    ∷ http_error 405 (codes "method not allowed")
    ∷ []

abbrev after : Api (Store ℕ) BloomFilter
after = elim (run (network invalidate_path) api calls) [ none ↦ api | some d ↦ d.0 ]

replies_to_calls : run (network invalidate_path) api calls ≡ some (after, replies)
unfolding run key_dec store_CacheOps Store.get Store.new slt
replies_to_calls = refl

run-Counts_example : Counts (5 + 3) (1 + 1) after × (length replies ≡ length calls)
unfolding of_nat failures_in failures
run-Counts_example =
    run-Counts (network invalidate_path) calls 5 1 api after replies (refl, refl) replies_to_calls

splits : split_csv (codes " a, b ,,c") ≡ codes "a" ∷ codes "b" ∷ codes "c" ∷ []
unfolding split_csv trim skip_front is_space is_space2 is_space3 skip_back
splits = refl

normalizes : normalize_http_addr (codes " https://b:1 ") ≡ codes "http://b:1"
unfolding normalize_http_addr trim skip_front is_space is_space2 is_space3 skip_back
normalizes = refl

adds_self :
    pool_addresses (codes "b:1") (codes "http://c:1") ≡ codes "http://b:1" ∷ codes "http://c:1" ∷ []
unfolding pool_addresses key_dec trim skip_front is_space is_space2 is_space3 skip_back
adds_self = refl

warms_up_104 : length default_warmup_keys ≡ 104
unfolding default_warmup_keys
warms_up_104 = refl
