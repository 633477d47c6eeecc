-- ===== src/Storage/Sharing.antt =====
-- Sharing the database: rust/adsb-data-engine/src/share.rs, and the sharing state of src/storage.rs.  The
-- database's server is a parameter: what it answers to a statement.
pub mod Quoting
pub mod Servers
use adsb_feed.Prelude.{
  ℕ, suc, Bool, true, false, ◌&&◌, ◌||◌, Option, none, some, Result, ok, err, List, [], ◌∷◌, ◌++◌,
  Bytes, codes, bytes_eq, leb, ◌==◌, not, is_empty, drop, length, if◌then◌else◌,
}
use mathlib.Core.Option.{get_or}
use adsb_feed.Feed.Monitor.{starts_with}

abbrev pub quote_mark : ℕ
quote_mark = 39

-- `sql_quote`: every quotation mark is doubled.
unfoldable pub sql_quote : Bytes → Bytes
sql_quote [] = []
sql_quote (c ∷ cs) =
    let rest = sql_quote cs in if c == quote_mark then quote_mark ∷ quote_mark ∷ rest else c ∷ rest

-- `'{}'` around a quoted text.
abbrev pub literal : Bytes → Bytes
literal value = quote_mark ∷ sql_quote value ++ quote_mark ∷ []

pub record ShareConfig : Type 0 where
  pub uri : Bytes
  pub token : Option Bytes
  pub allow_other_hostname : Bool
  pub auto_start : Bool

pub record ShareInfo : Type 0 where
  pub listen_uri : Bytes
  pub listen_url : Bytes
  pub token : Bytes

pub data ShareStatus : Type 0 where
  off : ShareStatus
  active : ShareInfo → ShareStatus
  unavailable : Bytes → ShareStatus

abbrev pub default : ShareConfig
default = record {
  uri = codes "quack:localhost";
  token = none;
  allow_other_hostname = false;
  auto_start = false;
}

-- The arguments of `quack_serve`, and the statement.
unfoldable pub token_arg : Option Bytes → Bytes
token_arg none = []
token_arg (some token) = codes ", token := " ++ literal token

unfoldable pub host_arg : Bool → Bytes
host_arg allow = if allow then codes ", allow_other_hostname := true" else []

unfoldable pub serve_args : ShareConfig → Bytes
unfolding token_arg host_arg
serve_args cfg = literal cfg.uri ++ (token_arg cfg.token ++ host_arg cfg.allow_other_hostname)

unfoldable pub serve_sql : ShareConfig → Bytes
unfolding serve_args
serve_sql cfg = codes "CALL quack_serve(" ++ serve_args cfg ++ codes ")"

abbrev pub stop_sql : Bytes → Bytes
stop_sql listen_uri = codes "CALL quack_stop(" ++ literal listen_uri ++ codes ")"

-- `strip_prefix(..).unwrap_or(..)`.
unfoldable pub strip_prefix : Bytes → Bytes → Bytes
unfolding starts_with
strip_prefix prefix text = if starts_with prefix text then drop (length prefix) text else text

-- The text behind the last of a character.
unfoldable pub after_last : ℕ → Bytes → Option Bytes
after_last sep [] = none
after_last sep (c ∷ cs) = elim (after_last sep cs) [
  | some rest ↦ some rest
  | none ↦ if c == sep then some cs else none
]

unfoldable pub contains : ℕ → Bytes → Bool
contains sep [] = false
contains sep (c ∷ cs) = c == sep || contains sep cs

unfoldable pub has_port : Bytes → Bool
unfolding strip_prefix after_last contains
has_port uri =
    let rest = strip_prefix (codes "//") (strip_prefix (codes "quack:") uri) in
    elim (after_last b']' rest) [
      | some close ↦ starts_with (codes ":") close
      | none ↦ contains b':' rest
    ]

-- The text up to a character.
unfoldable pub until : ℕ → Bytes → Bytes
until sep [] = []
until sep (c ∷ cs) = let rest = until sep cs in if c == sep then [] else c ∷ rest

-- The text behind the first `://`.
unfoldable pub after_scheme : Bytes → Option Bytes
unfolding starts_with
after_scheme [] = none
after_scheme (c ∷ cs) =
    let rest = after_scheme cs in
    if starts_with (codes "://") (c ∷ cs) then some (drop 2 cs) else rest

unfoldable pub all_digits : Bytes → Bool
all_digits [] = true
all_digits (c ∷ cs) = leb b'0' c && leb c b'9' && all_digits cs

unfoldable pub port_of : Bytes → Option Bytes
unfolding after_scheme until after_last all_digits
port_of url = elim (after_last b':' (until b'/' (get_or (after_scheme url) url))) [
  | none ↦ none
  | some port ↦ if not (is_empty port) && all_digits port then some port else none
]

unfoldable pub qualify_uri : Bytes → Bytes → Bytes
unfolding has_port port_of
qualify_uri listen_uri listen_url =
    let qualified : Bytes = elim (port_of listen_url) [
      | some port ↦ listen_uri ++ codes ":" ++ port
      | none ↦ listen_uri
    ] in
    if has_port listen_uri then listen_uri else qualified

-- The sharing state of the storage handle, and the servers that the database runs.
pub record Sharing : Type 0 where
  pub share_config : Option ShareConfig
  pub share_status : ShareStatus
  pub servers : List ShareInfo

-- `quack_stop`, where it succeeds: a server goes by the URI that `start` noted down of it, with its port, which
-- is the one that the source passes to `quack_stop`.
unfoldable pub stop_server : Bytes → List ShareInfo → List ShareInfo
stop_server listen_uri [] = []
stop_server listen_uri (i ∷ servers) =
    let rest = stop_server listen_uri servers in
    if bytes_eq i.listen_uri listen_uri then rest else i ∷ rest

-- `share::start`, with what loading the extension and the statement give: the row of `quack_serve`, which
-- then runs a server, or an error's text.
unfoldable pub start :
    (Bytes → Result (Bytes × Bytes × Bytes) Bytes)
    → ShareConfig
    → List ShareInfo
    → List ShareInfo × Result ShareInfo Bytes
unfolding serve_sql qualify_uri
start query_row cfg servers = elim (query_row (serve_sql cfg)) [
  | err e ↦ (servers, err e)
  | ok (uri, url, token) ↦
      let info : ShareInfo = record {
        listen_uri = qualify_uri uri url;
        listen_url = url;
        token = token;
      } in
      (info ∷ servers, ok info)
]

-- What `start_sharing_sync` notes down of it.
unfoldable pub note_start :
    List ShareInfo × Result ShareInfo Bytes → Sharing → Sharing × Result ShareInfo Bytes
note_start (servers, ok info) s =
    (record s { share_status = active info; servers = servers }, ok info)
note_start (servers, err reason) s =
    (record s { share_status = unavailable reason; servers = servers }, err reason)

unfoldable pub start_sharing_sync :
    (Bytes → Result (Bytes × Bytes × Bytes) Bytes) → Sharing → Sharing × Result ShareInfo Bytes
unfolding start note_start
start_sharing_sync query_row s = elim s.share_status [
  | active info ↦ (s, ok info)
  | _ ↦ note_start (start query_row (get_or s.share_config default) s.servers) s
]

-- `stop_sharing_sync`, with what `quack_stop` answers.
unfoldable pub stop_sharing_sync :
    (Bytes → Result (Unit {0}) Bytes) → Sharing → Sharing × Result (Unit {0}) Bytes
unfolding stop_server
stop_sharing_sync execute s = elim s.share_status [
  | active info ↦ elim (execute (stop_sql info.listen_uri)) [
    | ok done ↦
        (record s { share_status = off; servers = stop_server info.listen_uri s.servers }, ok done)
    | err e ↦ (s, err e)
  ]
  | _ ↦ (s, ok tt)
]
