-- ===== src/Providers/Secrets.antt =====
-- What sending the shown secrets of a provider back does.
use uigraph_api.Db.{Db}
use uigraph_api.Store.Providers as Store
