-- ===== src/Ivf/Exact/Total.antt =====
-- A search with vector code on a well-formed index returns, and counts at most five frauds.
