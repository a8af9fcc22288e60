-- ===== src/Net/Session/Overlap.antt =====
-- The calls of the flow control, overlapping.
