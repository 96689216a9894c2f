-- ===== src/Files/Transfer/Roundtrip.antt =====
-- A write of `do_rdwt` of fs/fs.c and a read after it.
