-- ===== src/Hop/Multi/Binds.antt =====
-- MultiListener binds all of its addresses or none.
