-- ===== src/Tests/Ways.antt =====
-- The theorems of directions and of road classes at a value each.
