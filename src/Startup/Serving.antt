-- ===== src/Startup/Serving.antt =====
-- backend/internal/server/server.go: the server and its shutdown. What net/http does is an argument.
use flow_cast.Base.{
  Text, bytes, Duration, show_nat, ℤ, if◌then◌else◌, ◌+◌, ◌≡◌, refl, Bool, true, false, Option,
  none, some, List, [], ◌∷◌, ◌++◌, pos, negsuc,
}
use flow_cast.Config.Types.{ServerConfig}

-- http.Server, as New sets it.
pub record HttpServer : Type 0 where
  pub addr : Text
  pub read_timeout : Duration
  pub read_header_timeout : Duration
  pub write_timeout : Duration
  pub idle_timeout : Duration
  pub shutdown_timeout : Duration

-- The verb %d on a port.
abbrev pub show_port : ℤ → Text
show_port (pos n) = show_nat n
show_port (negsuc n) = bytes "-" ++ show_nat (n + 1)

unfoldable pub new_server : ServerConfig → HttpServer
new_server cfg = record {
  addr = bytes ":" ++ show_port cfg.port;
  read_timeout = cfg.read_timeout;
  read_header_timeout = cfg.read_timeout;
  write_timeout = cfg.write_timeout;
  idle_timeout = cfg.idle_timeout;
  shutdown_timeout = cfg.shutdown_timeout;
}

-- How http.Server.Serve returns: with ErrServerClosed, or with another error.
pub data ServeResult : Type 0 where
  server_closed serve_failed : ServeResult

-- What comes first of the select: the server returns, or the context is done.
pub data Wakeup : Type 0 where
  returns : ServeResult → Wakeup
  stopped_by_signal : Wakeup

-- `drains` tells whether Shutdown returns without an error; `afterwards` is what Serve returns then.
pub record Serving : Type 0 where
  pub listens : Bool
  pub wakeup : Wakeup
  pub drains : Bool
  pub afterwards : ServeResult

pub data ServerError : Type 0 where
  listen_failed server_failed grace_exceeded : ServerError

-- The calls of the server, in order.
pub data ServerCall : Type 0 where
  call_listen call_serve call_shutdown call_close : ServerCall

-- ErrServerClosed is no failure.
unfoldable pub serve_error : ServeResult → Option ServerError
serve_error server_closed = none
serve_error serve_failed = some server_failed

unfoldable pub shutdown : Serving → Option ServerError × List ServerCall
unfolding serve_error
shutdown s =
    if s.drains
    then (serve_error s.afterwards, call_shutdown ∷ [])
    else (some grace_exceeded, call_shutdown ∷ call_close ∷ [])

unfoldable pub serve : Serving → Option ServerError × List ServerCall
unfolding shutdown
serve s = elim s.wakeup [
  | returns result ↦ (serve_error result, call_serve ∷ [])
  | stopped_by_signal ↦ let (e, calls) = shutdown s in (e, call_serve ∷ calls)
]

unfoldable pub run_server : Serving → Option ServerError × List ServerCall
unfolding serve
run_server s =
    if s.listens
    then (let (e, calls) = serve s in (e, call_listen ∷ calls))
    else (some listen_failed, call_listen ∷ [])

-- How a run of the server ends.
pub data ServerEnds (s : Serving) (e : Option ServerError) (calls : List ServerCall) : Type 0 where
  deaf :
      s.listens ≡ false → e ≡ some listen_failed → calls ≡ call_listen ∷ [] → ServerEnds s e calls
  alone :
      (result : ServeResult)
      → s.wakeup ≡ returns result
      → e ≡ serve_error result
      → calls ≡ call_listen ∷ call_serve ∷ []
      → ServerEnds s e calls
  drained :
      s.wakeup ≡ stopped_by_signal
      → s.drains ≡ true
      → e ≡ serve_error s.afterwards
      → calls ≡ call_listen ∷ call_serve ∷ call_shutdown ∷ []
      → ServerEnds s e calls
  cut_off :
      s.wakeup ≡ stopped_by_signal
      → s.drains ≡ false
      → e ≡ some grace_exceeded
      → calls ≡ call_listen ∷ call_serve ∷ call_shutdown ∷ call_close ∷ []
      → ServerEnds s e calls

run_server-parts :
    (listens : Bool) (wakeup : Wakeup) (drains : Bool) (afterwards : ServeResult)
    → let s : Serving = record {
      listens = listens;
      wakeup = wakeup;
      drains = drains;
      afterwards = afterwards;
    } in
      ServerEnds s (run_server s).0 (run_server s).1
unfolding run_server
run_server-parts false wakeup drains afterwards = deaf refl refl refl
run_server-parts true (returns result) drains afterwards = alone result refl refl refl
run_server-parts true stopped_by_signal true afterwards = drained refl refl refl refl
run_server-parts true stopped_by_signal false afterwards = cut_off refl refl refl refl

-- A run of the server fails to listen; or serves until it returns by itself, with an error unless it was
-- closed; or is stopped by a signal, and then drains its requests, or closes the connections that are
-- left with an error once the grace period is over.
pub run_server-ServerEnds : (s : Serving) → ServerEnds s (run_server s).0 (run_server s).1
run_server-ServerEnds s = run_server-parts s.listens s.wakeup s.drains s.afterwards
