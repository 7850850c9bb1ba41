-- ===== src/Examples/Retries.antt =====
-- A ping that is requested again after it was dispatched.
