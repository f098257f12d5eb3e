-- ===== src/Crypto.antt =====
-- The cryptographic stack: sim/hsm.py, sim/cryif.py, sim/csm.py and sim/hmac_crypto.py. The
-- primitives of hashlib, hmac, os and the package `cryptography` are a parameter.
pub mod Library
pub mod Hsm
pub mod Cryif
pub mod Csm
pub mod Jobs
pub mod Macs
