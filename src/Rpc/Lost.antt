-- ===== src/Rpc/Lost.antt =====
-- A call whose timer fires while its worker takes no tasks.
