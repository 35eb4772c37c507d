-- ===== src/Memory/Cache/Tests.antt =====
-- The cache that main sets up.
use os_exploring.Common.{◌≡◌, refl, false, [], ◌∷◌, find_range, for_range}
use os_exploring.Memory.Cache.{Cache, initialize_cache, access_cache}
use os_exploring.Memory.Cache.Counters.{
  IsTallied, IsForgotten, access_all, found_again, access_all-IsTallied, access_cache_again,
}

abbrev fresh : Cache
fresh = initialize_cache

fresh-IsForgotten : IsForgotten fresh 64
unfolding initialize_cache
fresh-IsForgotten = record { single = refl; absent = refl }

-- The line of address 64 is that of set 1, which the search for it does not look at.
access_cache_twice : (access_cache (access_cache fresh 64).1 64).0 ≡ false
unfolding access_cache initialize_cache find_range for_range
access_cache_twice = refl

access_all-IsTallied_run : IsTallied (access_all fresh (64 ∷ 128 ∷ 64 ∷ []))
access_all-IsTallied_run =
    access_all-IsTallied fresh (64 ∷ 128 ∷ 64 ∷ [])
      (unfold initialize_cache in (record { tallied = refl }))

access_cache_again_run : found_again 3 fresh 64 ≡ false
access_cache_again_run = access_cache_again 3 fresh 64 fresh-IsForgotten
