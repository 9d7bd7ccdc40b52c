-- ===== src/Tests/Counting.antt =====
-- src/cache.rs, `Cache::get`: the counters after a request for "/a".
