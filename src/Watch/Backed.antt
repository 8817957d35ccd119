-- ===== src/Watch/Backed.antt =====
-- The `watchStore` of internal/watch/manager.go that cmd/server/main.go passes: the database.
use copilot_review_mcp.Store.{Db}
use copilot_review_mcp.Store.Trigger
use copilot_review_mcp.Store.Watches
use copilot_review_mcp.Watch.State.{WatchStore}

abbrev pub db_store : WatchStore Db
db_store = record {
  get_latest = Trigger.get_latest;
  update_completed_at = Trigger.update_completed_at;
  get_review_watch_by_id = Watches.get_review_watch_by_id;
  get_latest_review_watch = Watches.get_latest_review_watch;
  list_review_watches = Watches.list_review_watches;
  upsert_review_watch = Watches.upsert_review_watch;
}
