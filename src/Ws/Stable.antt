-- ===== src/Ws/Stable.antt =====
-- What the server does, as its invariants see it: a predicate on the gateway is stable if the few
-- moves below keep it, and then every handler keeps it.
pub mod Handlers
pub mod Docs
pub mod Bus
use aideep_websocket.Common.{Text, ◌≡◌, Bool, true, false, Option}
use aideep_websocket.App.{App}
use aideep_websocket.Yjs.Managed.{Timer}
use aideep_websocket.Yjs.Lifecycle.{get_or_create_doc, cleanup_node, fire}
use aideep_websocket.Yjs.DocManager.{
  add_client, schedule_save, append_markdown, background_flush, flush_all,
}
use aideep_websocket.Ws.Event.{Command, leave}
use aideep_websocket.Ws.State.{
  Gateway, SocketData, in_world, on_manager, send, set_data, client_data,
}
use aideep_websocket.Ws.Gateway.{leave_docs, accept, uncount_connection}
use aideep_websocket.Ws.YjsHandlers.{track_room, set_doc, handle_yjs_leave}

-- Only the handler of `yjs_leave` takes a socket out of a room.
abbrev pub is_leave : Command → Bool
is_leave (leave a r) = true
is_leave _ = false

pub record IsStable {D E W : Type 0} (app : App D E W) (P : Gateway D W → Type 0) : Type 0 where
  pub sends : (c : Command) (g : Gateway D W) → is_leave c ≡ false → P g → P (send c g)
  pub sets_data :
      (a : Text) (d : SocketData) (g : Gateway D W)
      → d.user_id ≡ (client_data a g).user_id
      → P g
      → P (set_data a d g)
  pub accepts : (a u : Text) (g : Gateway D W) → P g → P (accept a u g)
  pub uncounts : (a : Text) (g : Gateway D W) → P g → P (uncount_connection a g)
  pub worlds : (w : W) (g : Gateway D W) → P g → P (in_world w g)
  pub gets :
      (n ws : Text) (g : Gateway D W) → P g → P (on_manager (get_or_create_doc app.env n ws) g).1
  pub opens :
      (a n : Text) (g : Gateway D W)
      → P g
      → P (track_room a n (record g { manager = add_client app.env n a g.manager }))
  pub leaves : (a n : Text) (g : Gateway D W) → P g → P (handle_yjs_leave app a n g)
  pub leaves_all : (a : Text) (g : Gateway D W) → P g → P (leave_docs app a g)
  pub schedules :
      (n : Text) (user : Option Text) (g : Gateway D W)
      → P g
      → P (record g { manager = schedule_save app.env n user g.manager })
  pub sets :
      (n : Text) (doc : D) (g : Gateway D W)
      → P g
      → P (record g { manager = set_doc n doc g.manager })
  pub cleans : (n : Text) (g : Gateway D W) → P g → P (on_manager (cleanup_node app.env n) g).1
  pub appends :
      (n ws markdown user : Text) (g : Gateway D W)
      → P g
      → P (on_manager (append_markdown app.env app.jobs n ws markdown user) g).1
  pub flushes :
      (n : Text) (g : Gateway D W) → P g → P (on_manager (background_flush app.env app.jobs n) g).1
  pub flushes_all : (g : Gateway D W) → P g → P (on_manager (flush_all app.env app.jobs) g).1
  pub fires :
      (timer : Timer) (g : Gateway D W) → P g → P (record g { manager = fire timer g.manager })
