-- ===== src/TokenBucket/Examples.antt =====
-- The limiter on concrete clock readings.
