-- ===== src/Storage/Sharing/Servers.antt =====
-- That the sharing state of rust/adsb-data-engine/src/storage.rs tells what is being served.
use mathlib.Core.Option.{get_or}
use adsb_feed.Prelude.{
  ◌≡◌, refl, sym, ap, ◌∙◌, Result, Result-cases, subst, Option, ◌⊎◌, ok, err, List, [], ◌∷◌, Bytes,
  bytes_eq_refl, inl, inr,
}
use adsb_feed.Storage.Sharing.{
  ShareConfig, ShareInfo, ShareStatus, off, active, unavailable, Sharing, default, stop_server,
  start, note_start, start_sharing_sync, stop_sharing_sync, stop_sql, serve_sql, qualify_uri,
}

-- A start and a stop, with what the database answers to their statements.
pub data Command : Type 0 where
  start_command : (Bytes → Result (Bytes × Bytes × Bytes) Bytes) → Command
  stop_command : (Bytes → Result (Unit {0}) Bytes) → Command

unfoldable pub step : Command → Sharing → Sharing
step (start_command query_row) s = (start_sharing_sync query_row s).0
step (stop_command execute) s = (stop_sharing_sync execute s).0

unfoldable pub run : List Command → Sharing → Sharing
unfolding step
run [] s = s
run (c ∷ cs) s = run cs (step c s)

-- The server that a state names.
abbrev pub named : ShareStatus → List ShareInfo
named (active info) = info ∷ []
named off = []
named (unavailable e) = []

-- What runs is what the state names.
abbrev pub Serves : Sharing → Type 0
Serves s = s.servers ≡ named s.share_status

-- A start adds its server, or changes nothing.
start-cases :
    (query_row : Bytes → Result (Bytes × Bytes × Bytes) Bytes) (cfg : ShareConfig)
    (servers : List ShareInfo)
    → ((info : ShareInfo) × (start query_row cfg servers ≡ (info ∷ servers, ok info)))
      ⊎ ((e : Bytes) × (start query_row cfg servers ≡ (servers, err e)))
unfolding start
start-cases query_row cfg servers = elim (Result-cases (query_row (serve_sql cfg))) [
  | inl (row, e) ↦ inl (
    record { listen_uri = qualify_uri row.0 row.1; listen_url = row.1; token = row.2 },
    rw (e, start) refl,
  )
  | inr (e, q) ↦ inr (e, rw (q, start) refl)
]

start-Serves :
    (query_row : Bytes → Result (Bytes × Bytes × Bytes) Bytes) (cfg : ShareConfig) (s : Sharing)
    → s.servers ≡ []
    → Serves (note_start (start query_row cfg s.servers) s).0
unfolding note_start
start-Serves query_row cfg s h = elim (start-cases query_row cfg s.servers) [
  | inl (info, e) ↦
      subst (λ t. Serves (note_start t s).0) (sym e) (ap (λ servers. info ∷ servers) h)
  | inr (e, q) ↦ subst (λ t. Serves (note_start t s).0) (sym q) h
]

stop_server-same : (info : ShareInfo) → stop_server info.listen_uri (info ∷ []) ≡ []
unfolding stop_server
stop_server-same info = rw (bytes_eq_refl info.listen_uri) refl

abbrev sharing : Option ShareConfig → ShareStatus → List ShareInfo → Sharing
sharing cfg status servers = record { share_config = cfg; share_status = status; servers = servers }

start_sharing_sync-Serves :
    (query_row : Bytes → Result (Bytes × Bytes × Bytes) Bytes) (cfg : Option ShareConfig)
    (status : ShareStatus) (servers : List ShareInfo)
    → Serves (sharing cfg status servers)
    → Serves (start_sharing_sync query_row (sharing cfg status servers)).0
unfolding start_sharing_sync
start_sharing_sync-Serves query_row cfg off servers h =
    start-Serves query_row (get_or cfg default) (sharing cfg off servers) h
start_sharing_sync-Serves query_row cfg (active info) servers h = h
start_sharing_sync-Serves query_row cfg (unavailable e) servers h =
    start-Serves query_row (get_or cfg default) (sharing cfg (unavailable e) servers) h

stop_sharing_sync-Serves :
    (execute : Bytes → Result (Unit {0}) Bytes) (cfg : Option ShareConfig) (status : ShareStatus)
    (servers : List ShareInfo)
    → Serves (sharing cfg status servers)
    → Serves (stop_sharing_sync execute (sharing cfg status servers)).0
unfolding stop_sharing_sync
stop_sharing_sync-Serves execute cfg off servers h = h
stop_sharing_sync-Serves execute cfg (unavailable e) servers h = h
stop_sharing_sync-Serves execute cfg (active info) servers h =
    elim (Result-cases (execute (stop_sql info.listen_uri))) [
      | inl (done, e) ↦
          rw (e, stop_sharing_sync) (ap (stop_server info.listen_uri) h ∙ stop_server-same info)
      | inr (e, q) ↦ rw (q, stop_sharing_sync) h
    ]

step-Serves : (c : Command) (s : Sharing) → Serves s → Serves (step c s)
unfolding step
step-Serves (start_command query_row) s h =
    start_sharing_sync-Serves query_row s.share_config s.share_status s.servers h
step-Serves (stop_command execute) s h =
    stop_sharing_sync-Serves execute s.share_config s.share_status s.servers h

-- Through any starts and stops, whatever the database answers to them: the servers that run are the one
-- that the state names, if it says that the database is shared, and none if it does not; so there are
-- never two.
pub run-Serves : (cs : List Command) (s : Sharing) → Serves s → Serves (run cs s)
unfolding run
run-Serves [] s h = h
run-Serves (c ∷ cs) s h = run-Serves cs (step c s) (step-Serves c s h)
