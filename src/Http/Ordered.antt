-- ===== src/Http/Ordered.antt =====
-- What an answer about an order tells of the rows of orders.
