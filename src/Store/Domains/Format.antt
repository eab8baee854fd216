-- ===== src/Store/Domains/Format.antt =====
-- The check of the table org_domains against that of the code.
use uigraph_api.Prelude.{Char, String}
