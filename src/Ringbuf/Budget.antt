-- ===== src/Ringbuf/Budget.antt =====
-- How much of the ring a priority may occupy, in endpoint_service/src/ringbuf.rs.
