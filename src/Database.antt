-- ===== src/Database.antt =====
-- src/ChainDatabase.h and src/ChainDatabase.cpp: the file of the chain. The state is the content of
-- the file, `none` where there is none. The folder, the logger and the transaction index, which is
-- opened and not used, are not modelled but for the exception when the index does not open.
pub mod Bytes
pub mod Codec
pub mod RoundTrip
pub mod Takes
pub mod Load
