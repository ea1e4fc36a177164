-- ===== src/Secret/RoundTrip.antt =====
-- A secret that is created from plain texts and then read.
