-- ===== src/Driver/Exchange/Delivery.antt =====
-- The run of one request through the calls of both sides, as theorems.
