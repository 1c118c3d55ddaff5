-- ===== src/Conf.antt =====
-- src/util/conf.c, src/env.c, and what src/http/http.c and src/main.c take from them: the
-- configuration.
pub mod Parse
pub mod Tokens
pub mod Load
pub mod Entries
pub mod Env
pub mod Bounds
